-- ===== src/Mw.antt =====
-- core/mw/mw.go: the middleware chain and its guards by path. A handler is a function of the request
-- and of what it writes to; a nil middleware is `none`.
pub mod Guards
pub mod Csrf
pub mod Cors
pub mod Ratelimit
pub mod Proxy
pub mod ResponseCache
pub mod Recorder
mod Tests
use howl_go.Prelude.{
  Bool, true, false, Option, none, some, List, [], ◌∷◌, Bytes, trim_suffix, has_prefix, is_nil,
  ◌==◌, if◌then◌else◌,
}

-- what stands behind the prefix: the end, or a slash next
abbrev whole_segment : Bytes → Bytes → Bool
whole_segment [] [] = true
whole_segment [] (c ∷ _) = c == b'/'
whole_segment (_ ∷ _) [] = false
whole_segment (_ ∷ prefix) (_ ∷ path) = whole_segment prefix path

abbrev under_trimmed : Bytes → Bytes → Bool
under_trimmed path prefix =
    if is_nil prefix
    then true
    else if has_prefix prefix path
    then whole_segment prefix path
    else false

unfoldable pub under : Bytes → Bytes → Bool
under path prefix = under_trimmed path (trim_suffix b'/' prefix)

-- what a handler makes of a request and of what is written so far
abbrev pub Handler : Type 0 → Type 0 → Type 0
Handler Request Response = Request → Response → Response

abbrev pub Middleware : Type 0 → Type 0 → Type 0
Middleware Request Response = Option (Handler Request Response → Handler Request Response)

module _ {Request Response : Type 0} where
  abbrev decorate :
      Middleware Request Response → Handler Request Response → Handler Request Response
  decorate none h = h
  decorate (some m) h = m h

  unfoldable pub chain :
      Handler Request Response → List (Middleware Request Response) → Handler Request Response
  chain h [] = h
  chain h (m ∷ ms) = decorate m (chain h ms)

  module _ (path : Request → Bytes) where
    unfoldable pub only :
        Bytes
        → List (Middleware Request Response)
        → Handler Request Response
        → Handler Request Response
    unfolding chain
    only prefix ms next r w = if under (path r) prefix then chain next ms r w else next r w

    unfoldable pub except :
        Bytes
        → List (Middleware Request Response)
        → Handler Request Response
        → Handler Request Response
    unfolding chain
    except prefix ms next r w = if under (path r) prefix then next r w else chain next ms r w
