-- ===== src/TxPower/Upsert.antt =====
-- Calls of TxPowerController.cpp that write through the pointer of `findOrCreate`, on the whole table.
use smart_fires_io_t.Base.{
  ℕ, zero, suc, replicate, ◌≡◌, ◌≢◌, ◌⊎◌, inl, inr, Bool, false, not, ◌||◌, [], ◌∷◌, Option, none,
  some, length, Option-cases, arith, refl, subst, ◌∙◌,
}
use smart_fires_io_t.Config.Profile.{NetworkProfile}
use smart_fires_io_t.TxPower.Node.{Node, fresh_node, max_tx_power_tracked_nodes}
use smart_fires_io_t.TxPower.Controller.{
  Table, find, modify, create, find_or_create, upsert, new_table,
}
use smart_fires_io_t.TxPower.Table.{
  IsUnique, Keeps, find-modify_self, find-modify_ne, length-modify, modify-IsUnique, created,
  Extends, CreatedIn, create-CreatedIn,
}

-- The table has its fixed size, and no two entries in use carry one id.
pub record IsTable (t : Table) : Type 0 where
  pub size : length t ≡ max_tx_power_tracked_nodes
  pub unique : IsUnique t

-- Some entry is free.
abbrev pub has_room : Table → Bool
has_room [] = false
has_room (n ∷ ns) = not n.in_use || has_room ns

-- Only the entry of node `id` differs between two tables.
pub record Touches (id : ℕ) (t t' : Table) : Type 0 where
  pub others : (j : ℕ) → j ≢ id → find j t' ≡ find j t
  pub keeps : IsTable t → IsTable t'

pub modify-Touches :
    (id : ℕ) (f : Node → Node) (t : Table) → Keeps id f → Touches id t (modify id f t)
modify-Touches id f t k = record {
  others = λ j ne. find-modify_ne id j f t k ne;
  keeps = λ v. record {
    size = length-modify id f t ∙ v.size;
    unique = modify-IsUnique id f t k v.unique;
  };
}

pub Touches-trans : {id : ℕ} {t u w : Table} → Touches id t u → Touches id u w → Touches id t w
Touches-trans a b = record {
  others = λ j ne. b.others j ne ∙ a.others j ne;
  keeps = λ v. b.keeps (a.keeps v);
}

pub Touches-refl : (id : ℕ) (t : Table) → Touches id t t
Touches-refl id t = record { others = λ j ne. refl; keeps = λ v. v }

module _ (profile : NetworkProfile) where
  replicate-IsUnique : (k : ℕ) → IsUnique (replicate k (fresh_node profile))
  unfolding fresh_node
  replicate-IsUnique zero = tt
  replicate-IsUnique (suc k) = ((λ busy. cc), replicate-IsUnique k)

  pub new_table-IsTable : IsTable (new_table profile)
  unfolding new_table
  new_table-IsTable = record { size = refl; unique = replicate-IsUnique max_tx_power_tracked_nodes }

  Extends-Touches : {id : ℕ} {t t' : Table} → Extends profile id t t' → Touches id t t'
  Extends-Touches x = record {
    others = x.others;
    keeps = λ v. record { size = x.same_size ∙ v.size; unique = x.unique v.unique };
  }

  -- An entry is found, or created, or there is no room for it.
  pub data Entry (id : ℕ) (t : Table) : Option Table → Type 0 where
    found : (n : Node) → find id t ≡ some n → Entry id t (some t)
    made : (t' : Table) → find id t ≡ none → Extends profile id t t' → Entry id t (some t')
    full : find id t ≡ none → Entry id t none

  made_or_full :
      (id : ℕ) (t : Table) (r : Option Table)
      → find id t ≡ none
      → create profile id t ≡ r
      → Entry id t r
  made_or_full id t none absent e = full absent
  made_or_full id t (some t') absent e =
      made t' absent (subst (CreatedIn profile id t) e (create-CreatedIn profile id t absent))

  pub find_or_create-Entry : (id : ℕ) (t : Table) → Entry id t (find_or_create profile id t)
  unfolding find_or_create
  find_or_create-Entry id t = elim (Option-cases (find id t)) [
    | inl absent ↦ rw absent (made_or_full id t (create profile id t) absent refl)
    | inr (n, present) ↦ rw present (found n present)
  ]

  -- What becomes of the table that `findOrCreate` found room in.
  abbrev pub written : (Table → Table) → Table → Option Table → Table
  written g t none = t
  written g t (some t') = g t'

  pub written-Touches :
      (id : ℕ) (g : Table → Table) (t : Table) {r : Option Table}
      → ((u : Table) → Touches id u (g u))
      → Entry id t r
      → Touches id t (written g t r)
  written-Touches id g t k (found n e) = k t
  written-Touches id g t k (made t' absent x) = Touches-trans (Extends-Touches x) (k t')
  written-Touches id g t k (full absent) = Touches-refl id t

  upsert-written :
      (id : ℕ) (f : Node → Node) (t : Table)
      → upsert profile id f t ≡ written (modify id f) t (find_or_create profile id t)
  unfolding upsert
  upsert-written id f t = ground arith

  pub upsert-Touches :
      (id : ℕ) (f : Node → Node) (t : Table) → Keeps id f → Touches id t (upsert profile id f t)
  upsert-Touches id f t k = rw (upsert-written id f t) (
      written-Touches id (modify id f) t (λ u. modify-Touches id f u k) (find_or_create-Entry id t))

  -- The entry that `findOrCreate` yields.
  abbrev pub entry_of : Option Node → Node → Node
  entry_of none n = n
  entry_of (some n) _ = n

  upserted :
      (id : ℕ) (f : Node → Node) (t : Table) {r : Option Table}
      → Keeps id f
      → Entry id t r
      → (r ≡ none)
        ⊎ (find id (written (modify id f) t r)
            ≡ some (f (entry_of (find id t) (created profile id))))
  upserted id f t k (found n e) = inr (rw e (find-modify_self id f t k e))
  upserted id f t k (made t' absent x) = inr (rw absent (find-modify_self id f t' k x.added))
  upserted id f t k (full absent) = inl refl

  -- After the call the node's entry is the changed one, made fresh if there was none, unless the node
  -- is unknown and the table is full.
  pub find-upsert :
      (id : ℕ) (f : Node → Node) (t : Table)
      → Keeps id f
      → (find_or_create profile id t ≡ none)
        ⊎ (find id (upsert profile id f t) ≡ some (f (entry_of (find id t) (created profile id))))
  find-upsert id f t k = rw (upsert-written id f t) (upserted id f t k (find_or_create-Entry id t))
