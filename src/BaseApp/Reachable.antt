-- ===== src/BaseApp/Reachable.antt =====
-- The states of SmartFiresBaseApp.cpp that `begin` and `update` lead to.
use smart_fires_io_t.Base.{
  ℕ, zero, suc, ◌-◌, ◌<◌, ◌≤◌, ◌≡◌, refl, Bool, true, List, length, replicate, arith, if_both,
}
use smart_fires_io_t.Config.Profile.{NetworkProfile, is_valid, is_valid_timing}
use smart_fires_io_t.TxPower.Upsert.{new_table-IsTable}
use smart_fires_io_t.BaseApp.Assign.{no_assignment}
use smart_fires_io_t.BaseApp.Assigned.{IsAssigned, entry}
use smart_fires_io_t.BaseApp.State.{BaseApp, Effect, new_base}
use smart_fires_io_t.BaseApp.Loop.{Pass, update_base, begin_base}
use smart_fires_io_t.BaseApp.Sound.{IsSound}
use smart_fires_io_t.BaseApp.Update.{announce-IsSound, update_base-IsSound}

pub data IsReachable (profile : NetworkProfile) : BaseApp → Type 0 where
  begun :
      (radio_began : Bool) (now seed announce_at : ℕ)
      → IsReachable profile
          (begin_base profile radio_began now seed announce_at (new_base profile)).1
  updated :
      (t : Pass) (b : BaseApp)
      → IsReachable profile b
      → IsReachable profile (update_base profile t b).0

entry-replicate : (n i : ℕ) → entry (replicate n no_assignment) i ≡ no_assignment
entry-replicate zero i = refl
entry-replicate (suc n) zero = refl
entry-replicate (suc n) (suc i) = entry-replicate n i

length-replicate : (n : ℕ) → length (replicate n no_assignment) ≡ n
length-replicate zero = refl
length-replicate (suc n) = omega (arith, length-replicate n)

pub replicate-IsAssigned : (n : ℕ) → IsAssigned (replicate n no_assignment)
replicate-IsAssigned n = record {
  placed = λ i below used. absurd (ground (arith, used, entry-replicate n i));
  distinct = λ i j below below' used used' same. absurd (ground (arith, used, entry-replicate n i));
}

new_base-IsSound :
    (profile : NetworkProfile) → profile.total_slots < 255 → IsSound (new_base profile)
unfolding new_base
new_base-IsSound profile few = record {
  table = new_table-IsTable profile;
  assigned = replicate-IsAssigned (profile.total_slots - 1);
  few = omega (arith, few, length-replicate (profile.total_slots - 1));
}

begin_base-IsSound :
    (profile : NetworkProfile) (radio_began : Bool) (now seed announce_at : ℕ) (b : BaseApp)
    → IsSound b
    → IsSound (begin_base profile radio_began now seed announce_at b).1
unfolding begin_base
begin_base-IsSound profile radio_began now seed announce_at b h =
    if_both (λ (x : Bool × BaseApp × List Effect). IsSound x.1) radio_began
      (announce-IsSound profile true announce_at _ h) h

valid_slots : (profile : NetworkProfile) → is_valid profile ≡ true → profile.total_slots ≤ 5
unfolding is_valid is_valid_timing
valid_slots profile valid = ground (arith, valid)

-- Every state that the base reaches is sound: on a valid profile, `begin` and any sequence of calls of
-- `update` on the initial state, whatever frames and serial bytes arrive, whatever the clock reads and the
-- radio answers, keep 16 entries of the power controller with no node id in use twice, and fewer than
-- 254 assignments, where each in use has the id of its place and a uid hash that no other has.
pub reachable-IsSound :
    (profile : NetworkProfile) (b : BaseApp)
    → is_valid profile ≡ true
    → IsReachable profile b
    → IsSound b
reachable-IsSound profile _ valid (begun radio_began now seed announce_at) =
    begin_base-IsSound profile radio_began now seed announce_at (new_base profile)
      (new_base-IsSound profile (omega (arith, valid_slots profile valid)))
reachable-IsSound profile _ valid (updated t b r) =
    update_base-IsSound profile t b (reachable-IsSound profile b valid r)
