-- ===== src/HttpServer/Headers.antt =====
-- pkg/http_server/common/security.go: configured headers. The map is the list of its entries, with no
-- key twice; `canonical` is what net/http makes of a key, and the header of a response is a function.
use devkit_go.Prelude.{
  ◌≡◌, refl, ◌∙◌, arith, Bool, true, false, Option, none, some, List, [], ◌∷◌, ◌++◌, if◌then◌else◌,
  All,
}
use devkit_go.Prelude.Text.{Text, codes, text_eq, text_eq_refl}

abbrev pub SecurityHeaders : Type 0
SecurityHeaders = List (Text × Text)

abbrev pub default_security_headers : SecurityHeaders
default_security_headers =
    (codes "X-Frame-Options", codes "DENY")
    ∷ (codes "X-Content-Type-Options", codes "nosniff")
    ∷ (codes "X-XSS-Protection", codes "1; mode=block")
    ∷ (codes "Strict-Transport-Security", codes "max-age=31536000; includeSubDomains; preload")
    ∷ (
      codes "Content-Security-Policy",
      codes "default-src 'self'; "
          ++ (codes "script-src 'self'; "
              ++ (codes "style-src 'self' 'unsafe-inline'; "
                  ++ (codes "img-src 'self' data: https:; "
                      ++ (codes "font-src 'self'; "
                          ++ (codes "connect-src 'self'; "
                              ++ (codes "frame-ancestors 'none'; "
                                  ++ (codes "base-uri 'self'; "
                                      ++ codes "form-action 'self'"))))))),
    )
    ∷ (codes "Referrer-Policy", codes "strict-origin-when-cross-origin")
    ∷ (
      codes "Permissions-Policy",
      codes "geolocation=(), camera=(), microphone=(), "
          ++ (codes "payment=(), usb=(), magnetometer=(), gyroscope=(), "
              ++ codes "accelerometer=(), ambient-light-sensor=()"),
    )
    ∷ (codes "X-Powered-By", [])
    ∷ (codes "Server", [])
    ∷ []

-- The configured value of a key.
unfoldable pub lookup : Text → SecurityHeaders → Option Text
lookup key [] = none
lookup key ((k, v) ∷ rest) = let later = lookup key rest in if text_eq key k then some v else later

unfoldable pub without : Text → SecurityHeaders → SecurityHeaders
without key [] = []
without key ((k, v) ∷ rest) =
    let others = without key rest in if text_eq key k then others else (k, v) ∷ others

unfoldable pub with_header : Text → Text → SecurityHeaders → SecurityHeaders
with_header key value s = (key, value) ∷ without key s

abbrev pub Header : Type 0
Header = Text → Option Text

abbrev pub is_empty : Text → Bool
is_empty [] = true
is_empty (c ∷ s) = false

-- `header.Del(k)` for an empty value, and `header.Set(k, v)`.
abbrev pub apply_one : (Text → Text) → Text → Text → Header → Header
apply_one canonical k v header t =
    if text_eq t (canonical k) then (if is_empty v then none else some v) else header t

unfoldable pub apply : (Text → Text) → SecurityHeaders → Header → Header
apply canonical [] header = header
apply canonical ((k, v) ∷ rest) header = apply canonical rest (apply_one canonical k v header)

-- What a configured value asks of the response.
abbrev pub asked : Option Text → Option Text → Option Text
asked none before = before
asked (some v) before = if is_empty v then none else some v

lookup-without_same : (key : Text) (s : SecurityHeaders) → lookup key (without key s) ≡ none
unfolding lookup without
lookup-without_same key [] = refl
lookup-without_same key ((k, v) ∷ rest) = ground (arith, lookup-without_same key rest)

-- The entry is about another header than `key`.
abbrev pub IsOther : (Text → Text) → Text → Text × Text → Type 0
IsOther canonical key entry = text_eq (canonical key) (canonical entry.0) ≡ false

apply-others :
    (canonical : Text → Text) (s : SecurityHeaders) (key : Text) (header : Header)
    → All (IsOther canonical key) s
    → apply canonical s header (canonical key) ≡ header (canonical key)
unfolding apply
apply-others canonical [] key header h = refl
apply-others canonical ((k, v) ∷ rest) key header (other, h) =
    let later = apply-others canonical rest key (apply_one canonical k v header) h in
    ground (arith, later)

-- When no other entry is about the same header, a key that is set decides the header of the response,
-- which is the value, or removed for an empty value; and a key that is taken out leaves it alone.
pub apply-with_header :
    (canonical : Text → Text) (s : SecurityHeaders) (key value : Text) (header : Header)
    → All (IsOther canonical key) (without key s)
    → (apply canonical (with_header key value s) header (canonical key)
        ≡ asked (some value) (header (canonical key)))
      × (apply canonical (without key s) header (canonical key) ≡ header (canonical key))
unfolding apply with_header
apply-with_header canonical s key value header h = (
  apply-others canonical (without key s) key (apply_one canonical key value header) h
      ∙ ground (arith, text_eq_refl (canonical key)),
  apply-others canonical (without key s) key header h,
)
