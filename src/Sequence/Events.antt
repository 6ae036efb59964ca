-- ===== src/Sequence/Events.antt =====
-- Events and bounded sliding windows: agent/sequential/models.py, config.py and window_manager.py.
use zerra.Prelude.{ℕ, ◌+◌, ◌*◌, String, Option, List, [], ◌∷◌, ◌++◌, ltb, if◌then◌else◌, take_last}
use zerra.Prelude.Dict.{Dict, insert, get_or}

abbrev pub window_size : ℕ
window_size = 10

abbrev pub window_ttl_seconds : ℕ
window_ttl_seconds = 30 * 60

pub record SequenceCallEvent : Type 0 where
  pub id : String
  pub identity_id : String
  pub timestamp : ℕ
  pub endpoint : String
  pub method : String
  pub object_id : Option String
  pub object_type : Option String
  pub status_code : ℕ
  pub response_fields : List String
  pub identity_type : String
  pub scope_contract : Option (List String)
  pub params : Dict String

pub record SequenceWindow : Type 0 where
  pub identity_id : String
  pub events : List SequenceCallEvent
  pub max_size : ℕ

pub record WindowManager : Type 0 where
  pub max_size : ℕ
  -- In microseconds.
  pub ttl : ℕ
  pub windows : Dict (List SequenceCallEvent)

-- `WindowManager(max_size, ttl_seconds)`.
unfoldable pub init_windows : ℕ → ℕ → WindowManager
init_windows max_size ttl_seconds = record {
  max_size = max_size;
  ttl = ttl_seconds * 1_000_000;
  windows = [];
}

-- `while window and window[0].timestamp < cutoff: window.popleft()`, where the cutoff is `ttl`
-- before `now`.
unfoldable pub drop_expired : ℕ → ℕ → List SequenceCallEvent → List SequenceCallEvent
drop_expired now ttl [] = []
drop_expired now ttl (e ∷ events) =
    if ltb (e.timestamp + ttl) now then drop_expired now ttl events else e ∷ events

-- The window that `add` leaves: `append` on a deque with a maximal length drops from the left.
unfoldable pub window_after : WindowManager → SequenceCallEvent → List SequenceCallEvent
window_after m event =
    take_last m.max_size
      (drop_expired event.timestamp m.ttl (get_or event.identity_id [] m.windows) ++ event ∷ [])

unfoldable pub add : WindowManager → SequenceCallEvent → WindowManager × SequenceWindow
add m event =
    let events = window_after m event in
    (
      record m { windows = insert event.identity_id events m.windows },
      record { identity_id = event.identity_id; events = events; max_size = m.max_size },
    )

unfoldable pub clear : WindowManager → WindowManager
clear m = record m { windows = [] }
