-- ===== src/HttpServer/Chi/Forwarding.antt =====
-- The writers that middleware puts around the one of the server change nothing of the response.
use devkit_go.Prelude.{
  ℕ, ◌≡◌, refl, ◌∙◌, arith, true, false, List, [], ◌∷◌, ◌++◌, append-nil, append_assoc, length,
}
use devkit_go.Prelude.Int.{ℤ, pos}
use devkit_go.Prelude.Int64.{add64}
use devkit_go.HttpServer.Writer.{bodies, forwarded, any_sends}
use devkit_go.HttpServer.Chi.Calls.{
  Call, set_call, add_call, del_call, header_call, body_call, Response, is_sent, send, take,
  take_all,
}
use devkit_go.HttpServer.Chi.Middleware.{
  new_observed_writer, observe, observed_write, observed_write_header,
}

-- A status that is sent after the first is not seen.
take_all-bodies :
    (calls : List Call) (w : Response)
    → is_sent w ≡ true
    → take_all (bodies calls) w ≡ take_all calls w
unfolding take_all bodies take send
take_all-bodies [] w h = refl
take_all-bodies (set_call k v ∷ calls) w h = take_all-bodies calls (take (set_call k v) w) h
take_all-bodies (del_call k ∷ calls) w h = take_all-bodies calls (take (del_call k) w) h
take_all-bodies (add_call k v ∷ calls) w h = take_all-bodies calls (take (add_call k v) w) h
take_all-bodies (header_call code ∷ calls) w h = ground (arith, take_all-bodies calls w h)
take_all-bodies (body_call b ∷ calls) w h =
    take_all-bodies calls (take (body_call b) w) (ground (arith, h))

take-sent :
    (call : Call) (w : Response) → any_sends (call ∷ []) ≡ true → is_sent (take call w) ≡ true
unfolding take send any_sends
take-sent (set_call k v) w h = absurd (ground arith)
take-sent (del_call k) w h = absurd (ground arith)
take-sent (add_call k v) w h = absurd (ground arith)
take-sent (header_call code) w h = ground arith
take-sent (body_call b) w h = ground arith

pub take_all-forwarded :
    (calls : List Call) (w : Response) → take_all (forwarded calls) w ≡ take_all calls w
unfolding take_all forwarded any_sends
take_all-forwarded [] w = refl
take_all-forwarded (set_call k v ∷ calls) w = take_all-forwarded calls (take (set_call k v) w)
take_all-forwarded (del_call k ∷ calls) w = take_all-forwarded calls (take (del_call k) w)
take_all-forwarded (add_call k v ∷ calls) w = take_all-forwarded calls (take (add_call k v) w)
take_all-forwarded (header_call code ∷ calls) w =
    take_all-bodies calls (take (header_call code) w) (take-sent (header_call code) w refl)
take_all-forwarded (body_call b ∷ calls) w =
    take_all-bodies calls (take (body_call b) w) (take-sent (body_call b) w refl)

pub any_sends-forwarded : (calls : List Call) → any_sends (forwarded calls) ≡ any_sends calls
unfolding any_sends forwarded
any_sends-forwarded [] = refl
any_sends-forwarded (set_call k v ∷ calls) = any_sends-forwarded calls
any_sends-forwarded (del_call k ∷ calls) = any_sends-forwarded calls
any_sends-forwarded (add_call k v ∷ calls) = any_sends-forwarded calls
any_sends-forwarded (header_call code ∷ calls) = refl
any_sends-forwarded (body_call b ∷ calls) = refl

-- The bytes of the bodies, counted as an int64.
unfoldable pub count_bytes : List Call → ℤ → ℤ
count_bytes [] n = n
count_bytes (body_call b ∷ calls) n = count_bytes calls (add64 n (pos (length b)))
count_bytes (_ ∷ calls) n = count_bytes calls n

-- The status of the first call that sends one.
unfoldable pub first_status : List Call → ℕ
first_status [] = 200
first_status (header_call code ∷ calls) = code
first_status (body_call b ∷ calls) = 200
first_status (_ ∷ calls) = first_status calls

observe-written :
    (calls : List Call) (status : ℕ) (bytes : ℤ) (log : List Call)
    → observe calls (record { status = status; bytes = bytes; wrote_header = true; log = log })
      ≡ record {
        status = status;
        bytes = count_bytes calls bytes;
        wrote_header = true;
        log = log ++ bodies calls;
      }
unfolding observe observed_write observed_write_header bodies count_bytes
observe-written [] status bytes log = rw append-nil refl
observe-written (header_call code ∷ calls) status bytes log = observe-written calls status bytes log
observe-written (body_call b ∷ calls) status bytes log =
    observe-written calls status (add64 bytes (pos (length b))) (log ++ (body_call b ∷ []))
    ∙ rw append_assoc refl
observe-written (set_call k v ∷ calls) status bytes log =
    observe-written calls status bytes (log ++ (set_call k v ∷ [])) ∙ rw append_assoc refl
observe-written (del_call k ∷ calls) status bytes log =
    observe-written calls status bytes (log ++ (del_call k ∷ [])) ∙ rw append_assoc refl
observe-written (add_call k v ∷ calls) status bytes log =
    observe-written calls status bytes (log ++ (add_call k v ∷ [])) ∙ rw append_assoc refl

observe-unwritten :
    (calls : List Call) (log : List Call)
    → observe calls (record { status = 200; bytes = pos 0; wrote_header = false; log = log })
      ≡ record {
        status = first_status calls;
        bytes = count_bytes calls (pos 0);
        wrote_header = any_sends calls;
        log = log ++ forwarded calls;
      }
unfolding observe observed_write observed_write_header forwarded count_bytes first_status any_sends
observe-unwritten [] log = rw append-nil refl
observe-unwritten (header_call code ∷ calls) log =
    observe-written calls code (pos 0) (log ++ (header_call code ∷ [])) ∙ rw append_assoc refl
observe-unwritten (body_call b ∷ calls) log =
    observe-written calls 200 (add64 (pos 0) (pos (length b))) (log ++ (body_call b ∷ []))
    ∙ rw append_assoc refl
observe-unwritten (set_call k v ∷ calls) log =
    observe-unwritten calls (log ++ (set_call k v ∷ [])) ∙ rw append_assoc refl
observe-unwritten (del_call k ∷ calls) log =
    observe-unwritten calls (log ++ (del_call k ∷ [])) ∙ rw append_assoc refl
observe-unwritten (add_call k v ∷ calls) log =
    observe-unwritten calls (log ++ (add_call k v ∷ [])) ∙ rw append_assoc refl

-- The observed writer passes on what the one for recovery does, and it knows the first status and the
-- bytes.
pub observe-forwarded :
    (calls : List Call)
    → observe calls new_observed_writer ≡ record {
      status = first_status calls;
      bytes = count_bytes calls (pos 0);
      wrote_header = any_sends calls;
      log = forwarded calls;
    }
observe-forwarded calls = observe-unwritten calls []
