-- ===== src/Sync/Stuck.antt =====
-- The lock of the HTTP queue without a request that could release it (frontend/services/syncManager.js).
use skorekeeper.Common.{true, List, [], ◌∷◌, none, ◌≡◌, sym, subst, arith}
use skorekeeper.Sync.{
  Request, Response, ServerMsg, Http, Sync, process_http_queue, http_response, handle_message,
  SyncEvent, step, run_events,
}
use skorekeeper.Sync.Steps.{step-kept, kept-handle_message}

-- The queue is locked, and no request is awaited that could release it; so far those were posted.
abbrev pub IsLocked : List Request → Http → Type 0
IsLocked posted h = (h.is_draining ≡ true) × (h.in_flight ≡ none) × (h.posted ≡ posted)

pub process_http_queue-locked : (s : Sync) → s.http.is_draining ≡ true → process_http_queue s ≡ s
unfolding process_http_queue
process_http_queue-locked s h = ground arith

module _ (posted : List Request) where
  pub processed-IsLocked :
      (s : Sync) → IsLocked posted s.http → IsLocked posted (process_http_queue s).http
  processed-IsLocked s h =
      subst (λ t. IsLocked posted t.http) (sym (process_http_queue-locked s h.0)) h

  pub handle_message-IsLocked :
      (m : ServerMsg) (s : Sync)
      → IsLocked posted s.http
      → IsLocked posted (handle_message m s).http
  handle_message-IsLocked m s h =
      kept-handle_message (IsLocked posted) processed-IsLocked (λ m h k. k) (λ h k. k) m s h

  http_response-IsLocked :
      (r : Response) (s : Sync) → IsLocked posted s.http → IsLocked posted (http_response r s).http
  unfolding http_response
  http_response-IsLocked r s h = rw (h.1, http_response) h

  step-IsLocked :
      (e : SyncEvent) (s : Sync) → IsLocked posted s.http → IsLocked posted (step e s).http
  step-IsLocked e s h =
      step-kept (IsLocked posted) processed-IsLocked (λ m h k. k) (λ h k. k) e s
        (λ r. http_response-IsLocked r s h) h

  -- Once the queue is locked and no request is awaited, it stays locked and no further request is
  -- posted, whatever events follow.
  pub run_events-IsLocked :
      (es : List SyncEvent) (s : Sync)
      → IsLocked posted s.http
      → IsLocked posted (run_events es s).http
  unfolding run_events
  run_events-IsLocked [] s h = h
  run_events-IsLocked (e ∷ es) s h = run_events-IsLocked es (step e s) (step-IsLocked e s h)
