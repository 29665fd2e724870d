-- ===== src/Owner/Guardians.antt =====
-- The set of guardians of src/owner.rs.
use usn.Base.{
  ◌≡◌, not, ◌||◌, List, [], ◌∷◌, ◌++◌, arith, AccountId, same_account, Ensures, Ensures-bind,
  Ensures-map, require,
}
use usn.Base.{suc, Bool-cases, inl, inr, same_account_iff, err, guardian_exists, guardian_missing}
use usn.Base.Maps.{length}
use usn.Contract.{contains}
use usn.Owner.{
  last_of, without_last, fill_gap, insert_guardians, erase_guardians, erase_account,
  extend_guardians, remove_guardians,
}
use usn.Contract.{Contract, Outcome, assert_owner}
use usn.Near.{Env}
use mathlib.Core.List.{append_assoc, append-nil}
use usn.Base.{true, false, ok, refl, ap, ◌∙◌, sym, Returns, same_account_refl, same_account_comm}

contains-append :
    (a g : AccountId) (l : List AccountId)
    → contains a (l ++ g ∷ []) ≡ (contains a l || same_account a g)
contains-append a g [] = ground arith
contains-append a g (b ∷ l) = ground (arith, contains-append a g l)

-- The loop that adds guardians, where it returns, leaves just those that were there and the new
-- ones.
pub insert_guardians-contains :
    (a : AccountId) (new present : List AccountId)
    → Ensures
        (λ l. contains a l ≡ (contains a present || contains a new))
        (insert_guardians new present)
unfolding insert_guardians
insert_guardians-contains a [] present = ground arith
insert_guardians-contains a (g ∷ rest) present =
    Ensures-bind (λ l. contains a l ≡ (contains a present || contains a (g ∷ rest)))
      (require (not (contains g present)) (guardian_exists g)) _
      λ _ _.
        Ensures-map (λ l. contains a l ≡ (contains a (present ++ g ∷ []) || contains a rest)) _
          (insert_guardians rest (present ++ g ∷ []))
          (λ l h. ground (arith, contains-append a g present))
          (insert_guardians-contains a rest (present ++ g ∷ []))

-- The names are different from one another and from those that are there.
abbrev pub AreNew : List AccountId → List AccountId → Type 0
AreNew [] present = Unit
AreNew (g ∷ rest) present =
    (contains g present ≡ false) × (contains g rest ≡ false) × AreNew rest present

AreNew-snoc :
    (g : AccountId) (rest present : List AccountId)
    → contains g rest ≡ false
    → AreNew rest present
    → AreNew rest (present ++ g ∷ [])
AreNew-snoc g [] present away new = tt
AreNew-snoc g (h ∷ rest) present away (absent, once, new) = (
  ground (arith, contains-append h g present, same_account_comm g h),
  once,
  AreNew-snoc g rest present (ground arith) new,
)

insert_guardians-append :
    (new present : List AccountId)
    → AreNew new present
    → insert_guardians new present ≡ ok (present ++ new)
unfolding insert_guardians
insert_guardians-append [] present new = ap ok (sym (append-nil present))
insert_guardians-append (g ∷ rest) present (absent, once, new) = rw absent (
    insert_guardians-append rest (present ++ g ∷ []) (AreNew-snoc g rest present once new)
    ∙ ap ok (append_assoc present (g ∷ []) rest))

AreNew-contains :
    (g : AccountId) (new present : List AccountId)
    → AreNew new present
    → contains g new ≡ true
    → contains g present ≡ false
AreNew-contains g [] present fresh listed = absurd (ground arith)
AreNew-contains g (h ∷ rest) present (absent, once, fresh) listed =
    elim (Bool-cases (same_account g h)) [
      | inl same ↦ rw ((same_account_iff g h).0 same) absent
      | inr other ↦ AreNew-contains g rest present fresh (rw other at listed)
    ]

contains-append_list :
    (a : AccountId) (l m : List AccountId) → contains a (l ++ m) ≡ (contains a l || contains a m)
contains-append_list a [] m = ground arith
contains-append_list a (b ∷ l) m = ground (arith, contains-append_list a l m)

-- Moving the last element to the front.
contains-last :
    (a b : AccountId) (l : List AccountId)
    → (same_account a (last_of b l) || contains a (without_last b l))
      ≡ (same_account a b || contains a l)
contains-last a b [] = refl
contains-last a b (c ∷ l) = ground (arith, contains-last a c l)

contains-fill_gap : (a : AccountId) (l : List AccountId) → contains a (fill_gap l) ≡ contains a l
contains-fill_gap a [] = refl
contains-fill_gap a (b ∷ l) = contains-last a b l

length-fill_gap : (l : List AccountId) → length (fill_gap l) ≡ length l
length-fill_gap [] = refl
length-fill_gap (b ∷ l) = ap suc (length-without_last b l)
  where
    length-without_last :
        (b : AccountId) (l : List AccountId) → length (without_last b l) ≡ length l
    length-without_last b [] = refl
    length-without_last b (c ∷ l) = ap suc (length-without_last c l)

contains-erase_account :
    (a g : AccountId) (l : List AccountId)
    → same_account a g ≡ false
    → contains a (erase_account g l) ≡ contains a l
contains-erase_account a g [] other = refl
contains-erase_account a g (b ∷ l) other = elim (Bool-cases (same_account g b)) [
  | inl same ↦
      let away : same_account a b ≡ false = rw ((same_account_iff g b).0 same) at other in
      rw (same, away) (contains-fill_gap a l)
  | inr kept ↦ rw kept (ap (λ x. same_account a b || x) (contains-erase_account a g l other))
]

length-erase_account :
    (g : AccountId) (l : List AccountId)
    → contains g l ≡ true
    → suc (length (erase_account g l)) ≡ length l
length-erase_account g [] listed = absurd (ground arith)
length-erase_account g (b ∷ l) listed = elim (Bool-cases (same_account g b)) [
  | inl same ↦ rw same (ap suc (length-fill_gap l))
  | inr kept ↦ rw kept (ap suc (length-erase_account g l (rw kept at listed)))
]

-- A name behind the old ones is erased behind them.
erase_account-append :
    (g : AccountId) (present rest : List AccountId)
    → contains g present ≡ false
    → erase_account g (present ++ rest) ≡ present ++ erase_account g rest
erase_account-append g [] rest absent = refl
erase_account-append g (h ∷ present) rest absent =
    ground (arith, erase_account-append g present rest)

-- The names in some order, each once.
abbrev AreListed : List AccountId → List AccountId → Type 0
AreListed [] l = Unit
AreListed (g ∷ names) l = (contains g l ≡ true) × AreListed names l

AreListed-erase :
    (g : AccountId) (names l : List AccountId)
    → contains g names ≡ false
    → AreListed names l
    → AreListed names (erase_account g l)
AreListed-erase g [] l other listed = tt
AreListed-erase g (h ∷ names) l other (here, listed) =
    let away : same_account h g ≡ false = ground (arith, same_account_comm h g) in
    (contains-erase_account h g l away ∙ here, AreListed-erase g names l (ground arith) listed)

AreListed-cons :
    (g : AccountId) (names l : List AccountId) → AreListed names l → AreListed names (g ∷ l)
AreListed-cons g [] l listed = tt
AreListed-cons g (h ∷ names) l (here, listed) = (ground arith, AreListed-cons g names l listed)

AreListed-self : (names : List AccountId) → AreListed names names
AreListed-self [] = tt
AreListed-self (g ∷ names) =
    (rw (same_account_refl g) refl, AreListed-cons g names names (AreListed-self names))

no_length : (l : List AccountId) → length l ≡ 0 → l ≡ []
no_length [] none_left = refl
no_length (a ∷ l) none_left = absurd (omega arith)

erase_guardians-append :
    (new present listed : List AccountId)
    → AreNew new present
    → AreListed new listed
    → length listed ≡ length new
    → erase_guardians new (present ++ listed) ≡ ok present
unfolding erase_guardians
erase_guardians-append [] present listed new all as_many =
    ap ok (ap (λ l. present ++ l) (no_length listed as_many) ∙ append-nil present)
erase_guardians-append (g ∷ rest) present listed (absent, once, new) (here, all) as_many =
    let shorter : length (erase_account g listed) ≡ length rest =
      omega (arith, length-erase_account g listed here, as_many) in
    let there : contains g (present ++ listed) ≡ true =
      contains-append_list g present listed ∙ ground arith in
    rw (there, erase_account-append g present listed absent)
      (erase_guardians-append rest present (erase_account g listed) new
        (AreListed-erase g rest listed once all) shorter)

-- What an extension leaves: removing the same names undoes it, none of them can be added again, and
-- none of them could be removed before.
pub record Extended (env : Env) (new : List AccountId) (g : AccountId) (c : Contract)
    (o : Outcome (Unit {0})) : Type 0 where
  pub guardians : o.0.guardians ≡ c.guardians ++ new
  pub undone : remove_guardians env new o.0 ≡ ok (c, [], tt)
  pub twice : extend_guardians env (g ∷ []) o.0 ≡ err (guardian_exists g)
  pub missing : remove_guardians env (g ∷ []) c ≡ err (guardian_missing g)

-- The owner can add guardians whose names are different from one another and from those that are
-- there: they stand after the old ones, and removing the same names right after returns and
-- restores the state; adding any of them again is refused because it exists, and removing any of
-- them before is refused because it does not.
pub extend_guardians-Extended :
    (env : Env) (new : List AccountId) (g : AccountId) (c : Contract)
    → env.predecessor_account_id ≡ c.owner_id
    → AreNew new c.guardians
    → contains g new ≡ true
    → Returns (Extended env new g c) (extend_guardians env new c)
unfolding extend_guardians remove_guardians assert_owner insert_guardians erase_guardians
extend_guardians-Extended env new g c by_owner fresh listed =
    let owner : same_account env.predecessor_account_id c.owner_id ≡ true =
      rw by_owner (same_account_refl c.owner_id) in
    let there : contains g (c.guardians ++ new) ≡ true =
      contains-append_list g c.guardians new ∙ ground arith in
    let absent = AreNew-contains g new c.guardians fresh listed in
    rw (owner, insert_guardians-append new c.guardians fresh)
      (record {
        guardians = refl;
        undone =
            rw (owner, erase_guardians-append new c.guardians new fresh (AreListed-self new) refl)
              refl;
        twice = rw (owner, there) refl;
        missing = rw (owner, absent) refl;
      })
