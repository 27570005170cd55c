-- ===== src/HttpServer/Writer.antt =====
-- pkg/http_server/common/response_writer.go. What reaches the wrapped writer is kept in a log.
use devkit_go.Prelude.{
  ℕ, ◌≡◌, refl, ◌∙◌, append-nil, append_assoc, Bool, true, false, List, [], ◌∷◌, ◌++◌,
  if◌then◌else◌, ◌||◌,
}
use devkit_go.Prelude.Text.{Text}

-- The calls of a handler on its http.ResponseWriter: Set, Add and Del of its header, which go past the
-- wrapper, WriteHeader and Write.
pub data Call : Type 0 where
  set_call add_call : Text → Text → Call
  del_call : Text → Call
  header_call : ℕ → Call
  body_call : Text → Call

pub record ResponseWriter : Type 0 where
  pub header_written : Bool
  pub log : List Call

abbrev pub new_response_writer : ResponseWriter
new_response_writer = record { header_written = false; log = [] }

unfoldable pub write_header : ℕ → ResponseWriter → ResponseWriter
write_header code rw =
    if rw.header_written
    then rw
    else record { header_written = true; log = rw.log ++ (header_call code ∷ []) }

unfoldable pub write : Text → ResponseWriter → ResponseWriter
write b rw = record { header_written = true; log = rw.log ++ (body_call b ∷ []) }

-- The calls of handlers and of middleware, in the order of the mutex.
-- `Header()` is that of the wrapped writer.
abbrev pub on_header : Call → ResponseWriter → ResponseWriter
on_header call rw = record rw { log = rw.log ++ (call ∷ []) }

unfoldable pub run : List Call → ResponseWriter → ResponseWriter
run [] rw = rw
run (set_call k v ∷ calls) rw = run calls (on_header (set_call k v) rw)
run (del_call k ∷ calls) rw = run calls (on_header (del_call k) rw)
run (add_call k v ∷ calls) rw = run calls (on_header (add_call k v) rw)
run (header_call code ∷ calls) rw = run calls (write_header code rw)
run (body_call b ∷ calls) rw = run calls (write b rw)

-- All but the statuses.
unfoldable pub bodies : List Call → List Call
bodies [] = []
bodies (header_call code ∷ calls) = bodies calls
bodies (call ∷ calls) = call ∷ bodies calls

-- What is expected: calls on the header as they are, the first status or body, and no status then.
unfoldable pub forwarded : List Call → List Call
forwarded [] = []
forwarded (set_call k v ∷ calls) = set_call k v ∷ forwarded calls
forwarded (del_call k ∷ calls) = del_call k ∷ forwarded calls
forwarded (add_call k v ∷ calls) = add_call k v ∷ forwarded calls
forwarded (call ∷ calls) = call ∷ bodies calls

run-written :
    (calls : List Call) (log : List Call)
    → run calls (record { header_written = true; log = log })
      ≡ record { header_written = true; log = log ++ bodies calls }
unfolding run write_header write bodies
run-written [] log = rw append-nil refl
run-written (header_call code ∷ calls) log = run-written calls log
run-written (body_call b ∷ calls) log =
    run-written calls (log ++ (body_call b ∷ [])) ∙ rw append_assoc refl
run-written (set_call k v ∷ calls) log =
    run-written calls (log ++ (set_call k v ∷ [])) ∙ rw append_assoc refl
run-written (del_call k ∷ calls) log =
    run-written calls (log ++ (del_call k ∷ [])) ∙ rw append_assoc refl
run-written (add_call k v ∷ calls) log =
    run-written calls (log ++ (add_call k v ∷ [])) ∙ rw append_assoc refl

-- Does a call send the status?
abbrev pub sends : Call → Bool
sends (header_call code) = true
sends (body_call b) = true
sends _ = false

unfoldable pub any_sends : List Call → Bool
any_sends [] = false
any_sends (call ∷ calls) = sends call || any_sends calls

run-unwritten :
    (calls : List Call) (log : List Call)
    → run calls (record { header_written = false; log = log })
      ≡ record { header_written = any_sends calls; log = log ++ forwarded calls }
unfolding run write_header write forwarded any_sends
run-unwritten [] log = rw append-nil refl
run-unwritten (header_call code ∷ calls) log =
    run-written calls (log ++ (header_call code ∷ [])) ∙ rw append_assoc refl
run-unwritten (body_call b ∷ calls) log =
    run-written calls (log ++ (body_call b ∷ [])) ∙ rw append_assoc refl
run-unwritten (set_call k v ∷ calls) log =
    run-unwritten calls (log ++ (set_call k v ∷ [])) ∙ rw append_assoc refl
run-unwritten (del_call k ∷ calls) log =
    run-unwritten calls (log ++ (del_call k ∷ [])) ∙ rw append_assoc refl
run-unwritten (add_call k v ∷ calls) log =
    run-unwritten calls (log ++ (add_call k v ∷ [])) ∙ rw append_assoc refl

-- The wrapped writer gets every call on the header and every body in order, and a status only before
-- the bodies; and the flag tells whether anything was sent.
pub run-forwarded :
    (calls : List Call)
    → run calls new_response_writer
      ≡ record { header_written = any_sends calls; log = forwarded calls }
run-forwarded calls = run-unwritten calls []
