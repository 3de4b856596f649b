-- ===== src/Realtime/Admission.antt =====
-- src/geotrack/realtime/gateway.py: who is let in. `sessions.list_for` and the bearer's token come from
-- outside; a UUID is the number that Python compares it by.
pub mod Cap
use Prim.Native.String.{String}
use geotrack.Prelude.{
  ℕ, Bool, true, false, ◌&&◌, ◌||◌, List, [], ◌∷◌, Option, none, some, if◌then◌else◌, select,
  length, ltb, leb, ◌==◌,
}
use geotrack.Prelude.Int.{ℤ, ltb_ℤ}

-- `SessionInfo`, with `connected_at` in microseconds
pub record SessionInfo : Type 0 where
  pub id : ℕ
  pub label : String
  pub connected_at : ℤ

-- `(entry.connected_at, entry.id) < (mine.connected_at, mine.id)`
unfoldable pub older : SessionInfo → SessionInfo → Bool
older entry mine =
    if ltb_ℤ entry.connected_at mine.connected_at
    then true
    else if ltb_ℤ mine.connected_at entry.connected_at
    then false
    else ltb entry.id mine.id

-- `next((entry for entry in sessions if entry.id == session_id), None)`
unfoldable pub find_session : ℕ → List SessionInfo → Option SessionInfo
find_session session_id [] = none
find_session session_id (entry ∷ sessions) =
    let rest = find_session session_id sessions in
    if entry.id == session_id then some entry else rest

abbrev pub rank_from : Option SessionInfo → List SessionInfo → ℕ
rank_from none sessions = 0
rank_from (some mine) sessions = length (select (λ entry. older entry mine) sessions)

unfoldable pub rank_of : ℕ → List SessionInfo → ℕ
unfolding find_session older
rank_of session_id sessions = rank_from (find_session session_id sessions) sessions

-- The verdict of `_session_joined`: `none` is a `RedisError` of the directory.
unfoldable pub session_joined : ℕ → ℕ → Option (List SessionInfo) → Bool
unfolding rank_of
session_joined cap session_id none = true
session_joined cap session_id (some sessions) =
    if leb cap (rank_of session_id sessions) then false else true
