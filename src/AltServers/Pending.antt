-- ===== src/AltServers/Pending.antt =====
-- src/server/altservers.c: the table `pending` of uplinks that wait for a measurement, with the thread
-- that measures. An uplink is a number; the locks make each function one step, but the thread lets
-- other steps in between taking an uplink, writing its result and clearing its slot.
pub mod Sound
pub mod Steps
pub mod Safe
use dnbd3_fuse_lowlevel.Prelude.{
  ℕ, List, [], ◌∷◌, Option, none, some, Bool, true, false, not, ◌&&◌, ◌==◌, if◌then◌else◌, set,
  get_elem?, ◌≡◌, ◌≢◌,
}
use dnbd3_fuse_lowlevel.Prelude.Maps.{update}
use dnbd3_fuse_lowlevel.Slots.{holds, contains, fill}

-- `RTT_IDLE`, `RTT_INPROGRESS`, `RTT_DONTCHANGE`, `RTT_DOCHANGE` and `RTT_NOT_REACHABLE`
pub data RttResult : Type 0 where
  idle : RttResult
  in_progress : RttResult
  dont_change : RttResult
  do_change : RttResult
  not_reachable : RttResult

abbrev pub is_in_progress : RttResult → Bool
is_in_progress in_progress = true
is_in_progress r = false

abbrev pub is_do_change : RttResult → Bool
is_do_change do_change = true
is_do_change r = false

-- Where `altservers_main` is: it waits, it measures for the uplink in a slot, or the result is written.
pub data Worker : Type 0 where
  waiting : Worker
  measuring : ℕ → ℕ → Worker
  finished : ℕ → ℕ → Worker

-- The table, the `rttTestResult` of each uplink, and whether its `betterFd` is set.
pub record Checks : Type 0 where
  pub slots : List (Option ℕ)
  pub result : ℕ → RttResult
  pub better : ℕ → Bool
  pub worker : Worker

-- `altservers_findUplink`; `none` if its assert fails.
unfoldable pub find_uplink : ℕ → Checks → Option Checks
find_uplink u s =
    if s.better u
    then none
    else if is_in_progress (s.result u) && contains s.slots u
    then some s
    else (elim (fill u s.slots) [
      | none ↦ some s
      | some slots ↦ some (record s { slots = slots; result = update s.result u in_progress })
    ])

pub clear_slots : ℕ → List (Option ℕ) → List (Option ℕ)
clear_slots u [] = []
clear_slots u (x ∷ xs) = (if holds x u then none else x) ∷ clear_slots u xs

-- `altservers_removeUplink`
pub remove_uplink : ℕ → Checks → Checks
unfolding clear_slots
remove_uplink u s = record s {
  slots = clear_slots u s.slots;
  result = if contains s.slots u then update s.result u not_reachable else s.result;
}

-- The image of the uplink `u` in slot `i` has gone away.
abbrev pub drop_pending : ℕ → ℕ → Checks → Checks
drop_pending i u s = record s {
  slots = set s.slots i none;
  result = update s.result u not_reachable;
}

-- `altservers_main` takes the uplink in slot `i`, `image_there` saying that `image_lock` finds its
-- image; `none` if its assert fails.
unfoldable pub take_pending : Bool → ℕ → Checks → Option Checks
take_pending image_there i s = elim (get_elem? s.slots i) [
  | none ↦ some s
  | some none ↦ some s
  | some (some u) ↦
      if not image_there
      then some (drop_pending i u s)
      else if is_in_progress (s.result u)
      then some (record s { worker = measuring i u })
      else none
]

-- It writes the result of the measurement.
pub finish : RttResult → ℕ → ℕ → Checks → Checks
finish r i u s = record s {
  result = update s.result u r;
  better = if is_do_change r then update s.better u true else s.better;
  worker = finished i u;
}

-- It clears the slot.
pub clear_pending : ℕ → Checks → Checks
clear_pending i s = record s { slots = set s.slots i none; worker = waiting }

-- The thread of an uplink takes notice of the result: it switches to the better server, or sees that
-- none was reachable.
pub switch_server : ℕ → Checks → Checks
switch_server u s = record s { result = update s.result u idle; better = update s.better u false }

pub see_unreachable : ℕ → Checks → Checks
see_unreachable u s = record s { result = update s.result u idle }

-- A new uplink, with a connection or without: from `uplink_init`.
pub create : ℕ → Bool → Checks → Checks
create u connected s = record s {
  result = update s.result u (if connected then do_change else idle);
  better = update s.better u connected;
}

-- The steps: what an uplink does by itself, under the conditions that `uplink_mainloop` and
-- `uplink_connectionFailed` check, and what the thread of altservers does in its order.
pub data Step (s : Checks) : Checks → Type 0 where
  created :
      (u : ℕ) (connected : Bool)
      → ((i : ℕ) → get_elem? s.slots i ≢ some (some u))
      → Step s (create u connected s)
  asked : (u : ℕ) (s' : Checks) → s.result u ≢ in_progress → find_uplink u s ≡ some s' → Step s s'
  removed : (u : ℕ) → s.worker ≡ waiting → Step s (remove_uplink u s)
  switched : (u : ℕ) → s.result u ≡ do_change → Step s (switch_server u s)
  noticed : (u : ℕ) → s.result u ≡ not_reachable → Step s (see_unreachable u s)
  taken :
      (image_there : Bool) (i : ℕ) (s' : Checks)
      → s.worker ≡ waiting
      → take_pending image_there i s ≡ some s'
      → Step s s'
  measured :
      (i u : ℕ) (r : RttResult)
      → s.worker ≡ measuring i u
      → r ≢ in_progress
      → r ≢ idle
      → Step s (finish r i u s)
  cleared : (i u : ℕ) → s.worker ≡ finished i u → Step s (clear_pending i s)

-- Before the first call, every slot is empty, no measurement runs, and no better server is known but
-- where an uplink was created with one.
pub record IsInitial (s : Checks) : Type 0 where
  pub empty : (i u : ℕ) → get_elem? s.slots i ≢ some (some u)
  pub waits : s.worker ≡ waiting
  pub known : (u : ℕ) → s.better u ≡ true → s.result u ≡ do_change

pub data Reach (s : Checks) : Checks → Type 0 where
  start : Reach s s
  next : (s' s'' : Checks) → Reach s s' → Step s' s'' → Reach s s''
