-- ===== src/Event/Totals.antt =====
-- What the events of NEP-141 say about the supply: the amounts of `FtMint` and of `FtBurn`.
use usn.Base.{ℕ, ◌+◌, ◌≡◌, List, [], ◌∷◌, ◌++◌, arith}
use usn.Event.{Event}

abbrev pub minted : List Event → ℕ
minted [] = 0
minted (Event.ft_mint account amount memo ∷ l) = amount + minted l
minted (e ∷ l) = minted l

abbrev pub burned : List Event → ℕ
burned [] = 0
burned (Event.ft_burn account amount memo ∷ l) = amount + burned l
burned (e ∷ l) = burned l

pub minted-append : (l m : List Event) → minted (l ++ m) ≡ minted l + minted m
minted-append [] m = omega arith
minted-append (Event.ft_mint account amount memo ∷ l) m = omega (arith, minted-append l m)
minted-append (Event.ft_burn account amount memo ∷ l) m = minted-append l m
minted-append (e ∷ l) m = minted-append l m

pub burned-append : (l m : List Event) → burned (l ++ m) ≡ burned l + burned m
burned-append [] m = omega arith
burned-append (Event.ft_burn account amount memo ∷ l) m = omega (arith, burned-append l m)
burned-append (Event.ft_mint account amount memo ∷ l) m = burned-append l m
burned-append (e ∷ l) m = burned-append l m
