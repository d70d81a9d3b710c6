-- ===== src/TxPower/Table.antt =====
-- The table of tracked nodes: looking up, writing through a found entry, and creating one.
use mathlib.Core.Option
use smart_fires_io_t.Base.{
  ℕ, suc, ◌≡◌, ◌≢◌, inl, inr, true, false, if◌then◌else◌, [], ◌∷◌, Option, none, some, length,
  Bool-cases, arith, refl, ap, ◌∙◌,
}
use smart_fires_io_t.Config.Profile.{NetworkProfile}
use smart_fires_io_t.TxPower.Node.{Node, fresh_node}
use smart_fires_io_t.TxPower.Controller.{Table, is_node, find, modify, create}

-- No two entries in use carry one node id.
abbrev pub IsUnique : Table → Type 0
IsUnique [] = Unit {0}
IsUnique (n ∷ ns) = (n.in_use ≡ true → find n.node_id ns ≡ none) × IsUnique ns

-- A change of an entry of node `id` leaves it an entry of node `id`.
abbrev pub Keeps : ℕ → (Node → Node) → Type 0
Keeps id f = (n : Node) → is_node id n ≡ true → is_node id (f n) ≡ true

pub find-is_node : (id : ℕ) (t : Table) {n : Node} → find id t ≡ some n → is_node id n ≡ true
unfolding find
find-is_node id [] e = cc
find-is_node id (m ∷ t) e = elim (Bool-cases (is_node id m)) [
  | inl here ↦ ground arith
  | inr there ↦ find-is_node id t (rw there at e)
]

-- Writing through the pointer that `find` returned changes that entry.
pub find-modify_self :
    (id : ℕ) (f : Node → Node) (t : Table) {n : Node}
    → Keeps id f
    → find id t ≡ some n
    → find id (modify id f t) ≡ some (f n)
unfolding find modify
find-modify_self id f [] k e = cc
find-modify_self id f (m ∷ t) {n} k e = elim (Bool-cases (is_node id m)) [
  | inl here ↦ ground (arith, k m here)
  | inr there ↦ ground (arith, find-modify_self id f t {n = n} k)
]

-- It changes no entry of another node.
pub find-modify_ne :
    (id j : ℕ) (f : Node → Node) (t : Table)
    → Keeps id f
    → j ≢ id
    → find j (modify id f t) ≡ find j t
unfolding find modify
find-modify_ne id j f [] k ne = refl
find-modify_ne id j f (m ∷ t) k ne = elim (Bool-cases (is_node id m)) [
  | inl here ↦ ground (arith, k m here)
  | inr there ↦ ground (arith, find-modify_ne id j f t k ne)
]

-- A node with no entry is written nowhere.
pub modify_absent : (id : ℕ) (f : Node → Node) (t : Table) → find id t ≡ none → modify id f t ≡ t
unfolding find modify
modify_absent id f [] e = refl
modify_absent id f (m ∷ t) e = ground (arith, modify_absent id f t)

pub length-modify : (id : ℕ) (f : Node → Node) (t : Table) → length (modify id f t) ≡ length t
unfolding modify
length-modify id f [] = refl
length-modify id f (m ∷ t) = ground (arith, length-modify id f t)

pub modify-IsUnique :
    (id : ℕ) (f : Node → Node) (t : Table) → Keeps id f → IsUnique t → IsUnique (modify id f t)
unfolding modify
modify-IsUnique id f [] k u = tt
modify-IsUnique id f (m ∷ t) k (apart, u) = elim (Bool-cases (is_node id m)) [
  | inl here ↦ rw here ((λ busy. ground (arith, k m here, apart)), u)
  | inr there ↦ rw there (
    (λ busy. find-modify_ne id m.node_id f t k (λ e. ground arith) ∙ apart busy),
    modify-IsUnique id f t k u,
  )
]

module _ (profile : NetworkProfile) where
  abbrev pub created : ℕ → Node
  created id = let n = fresh_node profile in record n { in_use = true; node_id = id }

  -- `t'` is `t` with one entry added for node `id`, the profile's fresh one.
  pub record Extends (id : ℕ) (t t' : Table) : Type 0 where
    pub added : find id t' ≡ some (created id)
    pub others : (j : ℕ) → j ≢ id → find j t' ≡ find j t
    pub same_size : length t' ≡ length t
    pub unique : IsUnique t → IsUnique t'

  Extends-here :
      (id : ℕ) (m : Node) (t : Table)
      → m.in_use ≡ false
      → find id t ≡ none
      → Extends id (m ∷ t) (created id ∷ t)
  unfolding find
  Extends-here id m t idle absent = record {
    added = ground arith;
    others = λ j ne. ground arith;
    same_size = refl;
    unique = λ u. ((λ _. absent), u.1);
  }

  Extends-there :
      (id : ℕ) (m : Node) (t t' : Table)
      → m.in_use ≡ true
      → is_node id m ≡ false
      → Extends id t t'
      → Extends id (m ∷ t) (m ∷ t')
  unfolding find
  Extends-there id m t t' busy other x = record {
    added = rw other x.added;
    others = λ j ne. ap (λ r. if is_node j m then some m else r) (x.others j ne);
    same_size = ap suc x.same_size;
    unique = λ u. ((λ b. x.others m.node_id (apart busy other) ∙ u.0 b), x.unique u.1);
  }
    where
      apart : m.in_use ≡ true → is_node id m ≡ false → m.node_id ≢ id
      apart b o e = ground arith

  -- The result of a search for a free entry.
  abbrev pub CreatedIn : ℕ → Table → Option Table → Type 0
  CreatedIn id t none = Unit {0}
  CreatedIn id t (some t') = Extends id t t'

  CreatedIn-there :
      (id : ℕ) (m : Node) (t : Table) (r : Option Table)
      → m.in_use ≡ true
      → is_node id m ≡ false
      → CreatedIn id t r
      → CreatedIn id (m ∷ t) (Option.map (λ rest. m ∷ rest) r)
  CreatedIn-there id m t none busy other x = tt
  CreatedIn-there id m t (some t') busy other x = Extends-there id m t t' busy other x

  pub create-CreatedIn :
      (id : ℕ) (t : Table) → find id t ≡ none → CreatedIn id t (create profile id t)
  unfolding find create
  create-CreatedIn id [] absent = tt
  create-CreatedIn id (m ∷ t) absent = elim (Bool-cases m.in_use) [
    | inl busy ↦ simp busy (
        CreatedIn-there id m t (create profile id t) busy (ground arith)
          (create-CreatedIn id t (ground arith)))
    | inr idle ↦ simp idle (Extends-here id m t idle (ground arith))
  ]
