-- ===== src/HttpServer/Chi/Timeout.antt =====
-- The deadlines of pkg/http_server/chi_server/middleware.go: timeoutMiddleware, wrapWithTimeout,
-- runHandler and timeoutWriter. The handler and the goroutine of the request take turns; what either
-- does under the mutex is one step, and so is the answer, which is written after the mutex is given
-- back. `log` holds the calls that reach the writer of the server.
pub mod Safety
pub mod Buffer
pub mod Answer
use devkit_go.Prelude.{
  ℕ, ◌+◌, arith, Bool, true, false, not, ◌&&◌, ◌||◌, Option, none, some, List, [], ◌∷◌, ◌++◌,
  if◌then◌else◌,
}
use devkit_go.Prelude.Text.{Text}
use devkit_go.HttpServer.Headers.{SecurityHeaders, lookup, with_header, without}
use devkit_go.HttpServer.Chi.Calls.{
  Call, set_call, add_call, del_call, header_call, body_call, added, Outcome, returned, panicked,
}

-- The private header is the list of its entries, with no key twice.
pub record TimeoutWriter : Type 0 where
  pub h : SecurityHeaders
  pub written : Bool
  pub timed_out : Bool
  pub log : List Call

abbrev pub new_timeout_writer : TimeoutWriter
new_timeout_writer = record { h = []; written = false; timed_out = false; log = [] }

-- `dst[k] = v` puts the values of the private header in the place of those that were there.
unfoldable pub flush_headers : SecurityHeaders → List Call
flush_headers [] = []
flush_headers ((k, v) ∷ h) = set_call k v ∷ flush_headers h

unfoldable pub tw_write_header : ℕ → TimeoutWriter → TimeoutWriter
tw_write_header code tw = if tw.timed_out || tw.written then tw else record tw {
  written = true;
  log = tw.log ++ (flush_headers tw.h ++ (header_call code ∷ []));
}

unfoldable pub tw_write : Text → TimeoutWriter → TimeoutWriter
tw_write b tw = if tw.timed_out then tw else record tw {
  written = true;
  log =
      tw.log ++ (if tw.written then body_call b ∷ [] else flush_headers tw.h ++ (body_call b ∷ []));
}

-- A call of the handler.
unfoldable pub tw_call : Call → TimeoutWriter → TimeoutWriter
tw_call (set_call k v) tw = record tw { h = with_header k v tw.h }
tw_call (add_call k v) tw = record tw { h = with_header k (added (lookup k tw.h) v) tw.h }
tw_call (del_call k) tw = record tw { h = without k tw.h }
tw_call (header_call code) tw = tw_write_header code tw
tw_call (body_call b) tw = tw_write b tw

unfoldable pub tw_calls : List Call → TimeoutWriter → TimeoutWriter
tw_calls [] tw = tw
tw_calls (c ∷ calls) tw = tw_calls calls (tw_call c tw)

-- The goroutine of the request: it waits for the handler, has to write the answer, waits for the
-- handler to drain, or has ended, with the panic of the handler or without.
pub data Waiter : Type 0 where
  waiting answering draining ended : Waiter
  raised : ℕ → Waiter

-- `handler` is the end of the handler, once it has one: what `done` or `panicCh` then holds.
pub record Race : Type 0 where
  pub tw : TimeoutWriter
  pub handler : Option Outcome
  pub waiter : Waiter
  pub leaks : ℕ

abbrev pub new_race : Race
new_race = record { tw = new_timeout_writer; handler = none; waiter = waiting; leaks = 0 }

pub data Event : Type 0 where
  called : Call → Event
  finished : Outcome → Event
  received deadline answered drained : Event

abbrev pub received_as : Outcome → Waiter
received_as returned = ended
received_as (panicked p) = raised p

-- `timeout` is what writeTimeoutResponse writes; `cleans` tells whether there is a time to wait for the
-- handler afterwards, which timeoutMiddleware never has.
module _ (timeout : List Call) (cleans : Bool) where
  abbrev pub after_deadline : Waiter
  after_deadline = if cleans then draining else ended

  abbrev pub receive : Race → Race
  receive s = elim (s.handler) [ none ↦ s | some o ↦ record s { waiter = received_as o } ]

  -- `ctx.Done()` is chosen while the request waits.
  unfoldable pub expire : Race → Race
  expire s =
      if s.tw.written
      then record s { waiter = after_deadline }
      else record s { tw = record s.tw { written = true; timed_out = true }; waiter = answering }

  -- An event that cannot happen changes nothing.
  unfoldable pub step : Event → Race → Race
  step (called c) s = elim (s.handler) [ none ↦ record s { tw = tw_call c s.tw } | some o ↦ s ]
  step (finished o) s = elim (s.handler) [ none ↦ record s { handler = some o } | some o' ↦ s ]
  step received s = elim (s.waiter) [
    | waiting ↦ receive s
    | draining ↦ receive s
    | answering ↦ s
    | ended ↦ s
    | raised p ↦ s
  ]
  step deadline s = elim (s.waiter) [
    | waiting ↦ expire s
    | draining ↦ s
    | answering ↦ s
    | ended ↦ s
    | raised p ↦ s
  ]
  step answered s = elim (s.waiter) [
    | answering ↦ record s {
      tw = record s.tw { log = s.tw.log ++ timeout };
      waiter = after_deadline;
    }
    | waiting ↦ s
    | draining ↦ s
    | ended ↦ s
    | raised p ↦ s
  ]
  step drained s = elim (s.waiter) [
    | draining ↦ record s { waiter = ended; leaks = s.leaks + 1 }
    | waiting ↦ s
    | answering ↦ s
    | ended ↦ s
    | raised p ↦ s
  ]

  unfoldable pub steps : List Event → Race → Race
  steps [] s = s
  steps (e ∷ events) s = steps events (step e s)

-- The calls that the handler makes in a run, when it has ended as it says at the start.
unfoldable pub calls_made : Option Outcome → List Event → List Call
calls_made o [] = []
calls_made none (called c ∷ events) = c ∷ calls_made none events
calls_made none (finished o ∷ events) = calls_made (some o) events
calls_made o (_ ∷ events) = calls_made o events
