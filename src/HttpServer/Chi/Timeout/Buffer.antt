-- ===== src/HttpServer/Chi/Timeout/Buffer.antt =====
-- The private header of a timeoutWriter does not change the response of a handler that sets headers only.
use devkit_go.Prelude.{
  ℕ, ◌≡◌, ◌⊎◌, inl, inr, refl, sym, fun_ext, ◌∙◌, ap, subst, arith, Bool, true, false, some, List,
  [], ◌∷◌, ◌++◌, if◌then◌else◌, Bool-cases, ◌&&◌, leb,
}
use devkit_go.Prelude.Text.{Text, text_eq, text_eq_iff}
use devkit_go.HttpServer.Headers.{Header, SecurityHeaders, without, with_header}
use devkit_go.HttpServer.Chi.Calls.{
  Call, set_call, add_call, del_call, header_call, body_call, Response, assign, send, take,
  take_all, take_all-append, is_sent,
}
use devkit_go.HttpServer.Chi.Timeout.{
  TimeoutWriter, new_timeout_writer, tw_call, tw_calls, tw_write_header, tw_write, flush_headers,
}

-- A header after the entries are set in order.
unfoldable flushed : SecurityHeaders → Header → Header
flushed [] header = header
flushed ((k, v) ∷ h) header = flushed h (assign k (some v) header)

take_all-flush_headers :
    (h : SecurityHeaders) (w : Response)
    → take_all (flush_headers h) w ≡ record w { header = flushed h w.header }
unfolding take_all flush_headers flushed take
take_all-flush_headers [] w = refl
take_all-flush_headers ((k, v) ∷ h) w =
    take_all-flush_headers h (record w { header = assign k (some v) w.header })

flushed_agree :
    (h : SecurityHeaders) (one two : Header) (j : Text)
    → one j ≡ two j
    → flushed h one j ≡ flushed h two j
unfolding flushed
flushed_agree [] one two j e = e
flushed_agree ((k, v) ∷ h) one two j e =
    flushed_agree h (assign k (some v) one) (assign k (some v) two) j (ground (arith, e))

text_eq_other : (j k k' : Text) → text_eq k k' ≡ true → text_eq j k ≡ false → text_eq j k' ≡ false
text_eq_other j k k' h n = subst (λ t. text_eq j t ≡ false) ((text_eq_iff k k').0 h) n

text_eq_same : (j k k' : Text) → text_eq k k' ≡ false → text_eq j k ≡ true → text_eq j k' ≡ false
text_eq_same j k k' h e = subst (λ t. text_eq t k' ≡ false) (sym ((text_eq_iff j k).0 e)) h

-- Without the entry of a key, every other key is set as before.
flushed-without :
    (k : Text) (h : SecurityHeaders) (header : Header) (j : Text)
    → flushed (without k h) header j ≡ (if text_eq j k then header j else flushed h header j)
unfolding flushed without
flushed-without k [] header j = ground arith
flushed-without k ((k', v) ∷ h) header j = elim (Bool-cases (text_eq k k')) [
  | inl same ↦ elim (Bool-cases (text_eq j k)) [
    | inl here ↦ ground (arith, flushed-without k h header j)
    | inr there ↦
        let agree =
          flushed_agree h header (assign k' (some v) header) j
            (ground (arith, text_eq_other j k k' same there)) in
        ground (arith, flushed-without k h header j, agree)
  ]
  | inr other ↦
      ground (arith, flushed-without k h (assign k' (some v) header) j, text_eq_same j k k' other)
]

flushed-with_header :
    (k v : Text) (h : SecurityHeaders) (header : Header) (j : Text)
    → flushed (with_header k v h) header j ≡ assign k (some v) (flushed h header) j
unfolding flushed with_header
flushed-with_header k v h header j = elim (Bool-cases (text_eq j k)) [
  | inl here ↦ ground (arith, flushed-without k h (assign k (some v) header) j)
  | inr there ↦
      let agree = flushed_agree h (assign k (some v) header) header j (ground arith) in
      ground (arith, flushed-without k h (assign k (some v) header) j, agree)
]

-- The first call that writes, after the buffered entries.
take_all-flushed :
    (h : SecurityHeaders) (c : Call) (w : Response)
    → take_all (flush_headers h ++ (c ∷ [])) w ≡ take c (record w { header = flushed h w.header })
unfolding take_all
take_all-flushed h c w =
    take_all-append (flush_headers h) (c ∷ []) w ∙ ap (take c) (take_all-flush_headers h w)

is_sent-send : (code : ℕ) (w : Response) → is_sent (send code w) ≡ true
unfolding send
is_sent-send code w = ground arith

-- What the server has with the buffer, and without: the same but for the buffered entries while
-- nothing is written, and then the same status, header and body.
abbrev IsSame : Response → TimeoutWriter → Response → Type 0
IsSame w0 tw w =
    (tw.timed_out ≡ false)
    × (((tw.written ≡ false) × (tw.log ≡ []) × (record w0 { header = flushed tw.h w0.header } ≡ w))
        ⊎ ((tw.written ≡ true)
            × (is_sent w ≡ true)
            × (is_sent (take_all tw.log w0) ≡ true)
            × ((take_all tw.log w0).sent ≡ w.sent)
            × ((take_all tw.log w0).body ≡ w.body)))

-- Calls that set headers, but neither delete them nor add to them, and send no status below 200.
unfoldable pub is_replayable : List Call → Bool
is_replayable [] = true
is_replayable (del_call k ∷ calls) = false
is_replayable (add_call k v ∷ calls) = false
is_replayable (header_call code ∷ calls) = leb 200 code && is_replayable calls
is_replayable (set_call k v ∷ calls) = is_replayable calls
is_replayable (body_call b ∷ calls) = is_replayable calls

is_replayable_split :
    (c : Call) (calls : List Call)
    → is_replayable (c ∷ calls) ≡ true
    → (is_replayable (c ∷ []) ≡ true) × (is_replayable calls ≡ true)
unfolding is_replayable
is_replayable_split (set_call k v) calls h = (refl, h)
is_replayable_split (add_call k v) calls h = absurd (ground arith)
is_replayable_split (del_call k) calls h = absurd (ground arith)
is_replayable_split (header_call code) calls h = ground arith
is_replayable_split (body_call b) calls h = (refl, h)

module _ (w0 : Response) where
  tw_call-IsSame :
      (c : Call) (tw : TimeoutWriter) (w : Response)
      → is_replayable (c ∷ []) ≡ true
      → IsSame w0 tw w
      → IsSame w0 (tw_call c tw) (take c w)
  unfolding tw_call take send tw_write_header tw_write is_replayable take_all
  tw_call-IsSame (set_call k v) tw w h (t, inl (a, b, e)) =
      let same = ap (take (set_call k v)) e in
      let all = fun_ext (flushed-with_header k v tw.h w0.header) in
      (t, inl (a, b, ap (λ x. record w0 { header = x }) all ∙ same))
  tw_call-IsSame (set_call k v) tw w h (t, inr r) = (t, inr r)
  tw_call-IsSame (add_call k v) tw w h s = absurd (ground arith)
  tw_call-IsSame (del_call k) tw w h s = absurd (ground arith)
  tw_call-IsSame (header_call code) tw w h (t, inl (a, b, e)) =
      let reached = take_all-flushed tw.h (header_call code) w0 ∙ ap (send code) e in
      ground (arith, reached, is_sent-send code w)
  tw_call-IsSame (header_call code) tw w h (t, inr r) = ground arith
  tw_call-IsSame (body_call b) tw w h (t, inl (a, b', e)) =
      let reached = take_all-flushed tw.h (body_call b) w0 ∙ ap (take (body_call b)) e in
      ground (arith, reached, is_sent-send 200 w)
  tw_call-IsSame (body_call b) tw w h (t, inr r) =
      ground (arith, take_all-append tw.log (body_call b ∷ []) w0)

  tw_calls-IsSame :
      (calls : List Call) (tw : TimeoutWriter) (w : Response)
      → is_replayable calls ≡ true
      → IsSame w0 tw w
      → IsSame w0 (tw_calls calls tw) (take_all calls w)
  unfolding tw_calls take_all
  tw_calls-IsSame [] tw w h s = s
  tw_calls-IsSame (c ∷ calls) tw w h s =
      let (first, later) = is_replayable_split c calls h in
      tw_calls-IsSame calls (tw_call c tw) (take c w) later (tw_call-IsSame c tw w first s)

  -- What the server has of such a handler is what it would have without the buffer.
  pub tw_calls-transparent :
      (calls : List Call)
      → is_replayable calls ≡ true
      → let buffered = take_all (tw_calls calls new_timeout_writer).log w0 in
        (buffered.sent ≡ (take_all calls w0).sent) × (buffered.body ≡ (take_all calls w0).body)
  unfolding take_all flushed
  tw_calls-transparent calls h =
      let (in_time, cases) =
        tw_calls-IsSame calls new_timeout_writer w0 h (refl, inl (refl, refl, refl)) in
      elim cases [
        | inl (a, b, e) ↦
            let none_yet = ap (λ l. take_all l w0) b in
            (
              ap (λ w. w.sent) none_yet ∙ ap (λ w. w.sent) e,
              ap (λ w. w.body) none_yet ∙ ap (λ w. w.body) e,
            )
        | inr (a, b, c, d, e) ↦ (d, e)
      ]
