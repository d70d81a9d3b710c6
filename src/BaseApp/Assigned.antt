-- ===== src/BaseApp/Assigned.antt =====
-- The ids that `findOrCreateNodeAssignment` of SmartFiresBaseApp.cpp gives to nodes.
use smart_fires_io_t.Base.{
  ℕ, zero, suc, ◌+◌, ◌≤◌, ◌<◌, ◌≡◌, ◌≢◌, ◌↔◌, ◌⊎◌, inl, inr, ◌==◌, refl, sym, ap, ◌∙◌, subst, Bool,
  true, false, ◌&&◌, if◌then◌else◌, if_cases, List, [], ◌∷◌, Option, none, some, length, length-set,
  get_or, set, arith,
}
use smart_fires_io_t.Base.Word.{u8}
use smart_fires_io_t.BaseApp.Tracker.{or_this}
use smart_fires_io_t.BaseApp.Assign.{
  NodeAssignment, no_assignment, Lookup, known, free_at, no_room, lookup_of, lookup_from,
  find_or_create_node_assignment,
}

abbrev pub entry : List NodeAssignment → ℕ → NodeAssignment
entry es i = get_or es i no_assignment

abbrev Absent : ℕ → List NodeAssignment → Type 0
Absent uid es = (m : ℕ) → m < length es → (entry es m).in_use ≡ true → (entry es m).uid_hash ≢ uid

-- What the end of a scan of the entries from index `i` on says, where `free` is the vacant index so far.
abbrev Scanned : ℕ → ℕ → List NodeAssignment → Option ℕ → Lookup → Type 0
Scanned uid i es free (known k) =
    (m : ℕ) × (k ≡ i + m)
    × (m < length es)
    × ((entry es m).in_use ≡ true)
    × ((entry es m).uid_hash ≡ uid)
Scanned uid i es free (free_at k) =
    Absent uid es
    × ((free ≡ some k) ⊎ ((m : ℕ) × (k ≡ i + m) × (m < length es) × ((entry es m).in_use ≡ false)))
Scanned uid i es free no_room = Absent uid es

lookup_of-Scanned : (uid i : ℕ) (free : Option ℕ) → Scanned uid i [] free (lookup_of free)
lookup_of-Scanned uid i none = λ m below used. absurd (omega (arith, below))
lookup_of-Scanned uid i (some k) = (λ m below used. absurd (omega (arith, below)), inl refl)

Absent-cons :
    (uid : ℕ) (a : NodeAssignment) (es : List NodeAssignment)
    → a.in_use && a.uid_hash == uid ≡ false
    → Absent uid es
    → Absent uid (a ∷ es)
Absent-cons uid a es other absent zero below used = ground (arith, other, used)
Absent-cons uid a es other absent (suc m) below used = absent m (omega (arith, below)) used

first_vacant :
    (i k : ℕ) (used : Bool) (free : Option ℕ)
    → (if used then free else or_this i free) ≡ some k
    → (free ≡ some k) ⊎ ((k ≡ i) × (used ≡ false))
first_vacant i k true free h = inl h
first_vacant i k false none h = inr (ground (arith, h), refl)
first_vacant i k false (some f) h = inl h

-- A scan of the rest is a scan of the whole, where the first entry is another.
Scanned-cons :
    (uid i : ℕ) (a : NodeAssignment) (es : List NodeAssignment) (free : Option ℕ) (l : Lookup)
    → a.in_use && a.uid_hash == uid ≡ false
    → Scanned uid (i + 1) es (if a.in_use then free else or_this i free) l
    → Scanned uid i (a ∷ es) free l
Scanned-cons uid i a es free (known k) other (m, at, below, used, same) =
    (suc m, omega (arith, at), omega (arith, below), used, same)
Scanned-cons uid i a es free (free_at k) other (absent, place) = (
  Absent-cons uid a es other absent,
  elim place [
    | inl now ↦ elim (first_vacant i k a.in_use free now) [
      | inl before ↦ inl before
      | inr (at, free_here) ↦ inr (0, omega (arith, at), omega arith, free_here)
    ]
    | inr (m, at, below, vacant) ↦ inr (suc m, omega (arith, at), omega (arith, below), vacant)
  ],
)
Scanned-cons uid i a es free no_room other absent = Absent-cons uid a es other absent

lookup_from-Scanned :
    (uid i : ℕ) (es : List NodeAssignment) (free : Option ℕ)
    → Scanned uid i es free (lookup_from uid i es free)
unfolding lookup_from
lookup_from-Scanned uid i [] free = lookup_of-Scanned uid i free
lookup_from-Scanned uid i (a ∷ es) free =
    if_cases (Scanned uid i (a ∷ es) free) (a.in_use && a.uid_hash == uid)
      (λ here. (0, omega arith, omega arith, ground (arith, here), ground (arith, here)))
      (λ other.
        Scanned-cons uid i a es free _ other
          (lookup_from-Scanned uid (i + 1) es (if a.in_use then free else or_this i free)))

-- Each entry in use has the id of its place, and no two have one uid hash.
pub record IsAssigned (es : List NodeAssignment) : Type 0 where
  pub placed : (i : ℕ) → i < length es → (entry es i).in_use ≡ true → (entry es i).node_id ≡ 2 + i
  pub distinct :
      (i j : ℕ)
      → i < length es
      → j < length es
      → (entry es i).in_use ≡ true
      → (entry es j).in_use ≡ true
      → (entry es i).uid_hash ≡ (entry es j).uid_hash
      → i ≡ j

-- What `findOrCreateNodeAssignment` does where it returns the entry `i`.
pub record Assigns (uid : ℕ) (es : List NodeAssignment) (i : ℕ) (es' : List NodeAssignment)
    : Type 0 where
  pub assigned : IsAssigned es'
  pub size : length es' ≡ length es
  pub below : i < length es
  pub used : (entry es' i).in_use ≡ true
  pub named : (entry es' i).uid_hash ≡ uid
  pub kept : (j : ℕ) → (entry es j).in_use ≡ true → entry es' j ≡ entry es j

abbrev pub Finds : ℕ → List NodeAssignment → Option ℕ × List NodeAssignment → Type 0
Finds uid es (none, es') = es' ≡ es
Finds uid es (some i, es') = Assigns uid es i es'

get_or-set {ℓ} :
    {A : Type ℓ} (xs : List A) (i j : ℕ) (v d : A)
    → i < length xs
    → get_or (set xs i v) j d ≡ (if j == i then v else get_or xs j d)
get_or-set [] i j v d h = absurd (omega (arith, h))
get_or-set (x ∷ xs) zero zero v d h = refl
get_or-set (x ∷ xs) zero (suc j) v d h = ground arith
get_or-set (x ∷ xs) (suc i) zero v d h = ground arith
get_or-set (x ∷ xs) (suc i) (suc j) v d h = ground (arith, get_or-set xs i j v d (omega (arith, h)))

take_place :
    (uid : ℕ) (es : List NodeAssignment) (i : ℕ)
    → IsAssigned es
    → length es < 254
    → i < length es
    → (entry es i).in_use ≡ false
    → Absent uid es
    → Assigns uid es i
        (set es i (record (entry es i) { in_use = true; uid_hash = uid; node_id = u8 (2 + i) }))
take_place uid es i h small below vacant absent =
    let a : NodeAssignment = record (entry es i) {
      in_use = true;
      uid_hash = uid;
      node_id = u8 (2 + i);
    } in
    let size : length (set es i a) ≡ length es = length-set es i a in
    let cell = λ (j : ℕ). get_or-set es i j a no_assignment below in
    record {
      assigned = record {
        placed = λ j inside on. ground (arith, cell j, size, small, inside, on, h.placed j);
        distinct = λ j k inside inside' on on' same.
            ground (arith, cell j, cell k, size, h.distinct j k, absent j, absent k);
      };
      size = size;
      below = below;
      used = ground (arith, cell i);
      named = ground (arith, cell i);
      kept = λ j used. ground (arith, cell j, vacant, used);
    }

pub find_or_create-Finds :
    (uid : ℕ) (es : List NodeAssignment)
    → IsAssigned es
    → length es < 254
    → Finds uid es (find_or_create_node_assignment uid es)
unfolding find_or_create_node_assignment
find_or_create-Finds uid es h small =
    elim (lookup_from uid 0 es none)
        as (λ l.
          Scanned uid 0 es none l
          → Finds uid es (elim l [
            | known i ↦ (some i, es)
            | free_at i ↦ (
              some i,
              set es i
                  (record (entry es i) { in_use = true; uid_hash = uid; node_id = u8 (2 + i) }),
            )
            | no_room ↦ (none, es)
          ])) [
            | known i ↦ λ (m, at, below, on, same).
                let e : m ≡ i = omega (arith, at) in
                record {
                  assigned = h;
                  size = refl;
                  below = omega (arith, at, below);
                  used = ap (λ k. (entry es k).in_use) (sym e) ∙ on;
                  named = ap (λ k. (entry es k).uid_hash) (sym e) ∙ same;
                  kept = λ j used. refl;
                }
            | free_at i ↦ λ (absent, place). elim place [
              | inl never ↦ absurd (ground (arith, never))
              | inr (m, at, below, vacant) ↦
                  let e : m ≡ i = omega (arith, at) in
                  take_place uid es i h small (omega (arith, at, below))
                    (ap (λ k. (entry es k).in_use) (sym e) ∙ vacant) absent
            ]
            | no_room ↦ λ absent. refl
          ]
      (lookup_from-Scanned uid 0 es none)

found :
    (uid i : ℕ) (es : List NodeAssignment) (r : Option ℕ × List NodeAssignment)
    → Finds uid es r
    → r.0 ≡ some i
    → Assigns uid es i r.1
found uid i es (none, es') h e = absurd (ground (arith, e))
found uid i es (some k, es') h e = subst (λ n. Assigns uid es n es') (ground (arith, e)) h

-- Ids are distinct: where two nodes are given an assignment one after the other, on a table of less than
-- 254 entries in which each entry in use has the id of its place and no uid hash occurs twice, their ids
-- are the same if and only if their uid hashes are. Each id lies from 2 up to the number of entries plus
-- one, and the table is as described again.
pub find_or_create_distinct :
    (uid uid' i j : ℕ) (es : List NodeAssignment)
    → IsAssigned es
    → length es < 254
    → (find_or_create_node_assignment uid es).0 ≡ some i
    → (find_or_create_node_assignment uid' (find_or_create_node_assignment uid es).1).0 ≡ some j
    → let es'' =
        (find_or_create_node_assignment uid' (find_or_create_node_assignment uid es).1).1 in
      IsAssigned es''
      × ((entry es'' i).node_id ≡ (entry es'' j).node_id ↔ uid ≡ uid')
      × (2 ≤ (entry es'' i).node_id)
      × ((entry es'' i).node_id ≤ length es + 1)
find_or_create_distinct uid uid' i j es h small first second =
    let es' = (find_or_create_node_assignment uid es).1 in
    let es'' = (find_or_create_node_assignment uid' es').1 in
    let a : Assigns uid es i es' =
      found uid i es (find_or_create_node_assignment uid es) (find_or_create-Finds uid es h small)
        first in
    let b : Assigns uid' es' j es'' =
      found uid' j es' (find_or_create_node_assignment uid' es')
        (find_or_create-Finds uid' es' a.assigned (omega (arith, a.size, small))) second in
    let same : entry es'' i ≡ entry es' i = b.kept i a.used in
    let on : (entry es'' i).in_use ≡ true = ap (λ e. e.in_use) same ∙ a.used in
    let named : (entry es'' i).uid_hash ≡ uid = ap (λ e. e.uid_hash) same ∙ a.named in
    let inside : i < length es'' = omega (arith, a.below, a.size, b.size) in
    let inside' : j < length es'' = omega (arith, b.below, a.size, b.size) in
    let id_i = b.assigned.placed i inside on in
    let id_j = b.assigned.placed j inside' b.used in
    let meet = b.assigned.distinct i j inside inside' on b.used in
    (
      b.assigned,
      (
        (λ e.
            let ij : i ≡ j = omega (arith, e, id_i, id_j) in
            sym named ∙ ap (λ k. (entry es'' k).uid_hash) ij ∙ b.named),
        (λ e. ap (λ k. (entry es'' k).node_id) (meet (named ∙ e ∙ sym b.named))),
      ),
      omega (arith, id_i),
      omega (arith, id_i, inside, a.size, b.size),
    )

-- An entry that changes but for its id, its uid hash and its use.
pub set-IsAssigned :
    (es : List NodeAssignment) (i : ℕ) (a : NodeAssignment)
    → IsAssigned es
    → a.in_use ≡ (entry es i).in_use
    → a.uid_hash ≡ (entry es i).uid_hash
    → a.node_id ≡ (entry es i).node_id
    → i < length es
    → IsAssigned (set es i a)
set-IsAssigned es i a h used uid id below =
    let size : length (set es i a) ≡ length es = length-set es i a in
    let cell = λ (j : ℕ). get_or-set es i j a no_assignment below in
    record {
      placed = λ j inside on. ground (arith, cell j, size, inside, on, h.placed j, used, uid, id);
      distinct = λ j k inside inside' on on' same.
          ground (arith, cell j, cell k, size, h.distinct j k, used, uid, id);
    }
