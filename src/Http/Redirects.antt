-- ===== src/Http/Redirects.antt =====
-- `HttpClient::get` of lib/src/util/util.cpp: a request and the redirects that it follows.
pub mod Hosts
use hai_code.Base.{
  Bytes, ℕ, zero, suc, ◌+◌, ◌-◌, Bool, true, false, not, ◌&&◌, ◌||◌, List, [], ◌∷◌, ◌++◌, ℤ, pos,
  negsuc, eq, ◌==◌, if◌then◌else◌,
}
use hai_code.Permission.Path.{is_empty}

-- What one request comes to: `perform` says whether libcurl succeeded, `next` is the URL it names for
-- a redirect, empty where there is none.
pub record Fetched : Type 0 where
  pub perform : Bool
  pub code : ℕ
  pub next : Bytes
  pub body : Bytes
  pub truncated : Bool

pub record Response : Type 0 where
  pub result : Bytes
  pub response_code : ℤ
  pub truncated : Bool

pub is_redirect_code : ℕ → Bool
is_redirect_code code =
    code == 301 || (code == 302 || (code == 303 || (code == 307 || code == 308)))

-- `kMaxRedirectHops`.
abbrev pub max_redirect_hops : ℕ
max_redirect_hops = 5

pub respond : Fetched → Response
respond f =
    if not f.perform && not f.truncated
    then record { result = f.body; response_code = negsuc 0; truncated = false }
    else record { result = f.body; response_code = pos f.code; truncated = f.truncated }

-- libcurl makes the request (with no handle, `fetch` is not called, which is left out) and takes a URL
-- apart; the host name is empty where it cannot.
module _ (fetch : Bytes → Fetched) (url_hostname : Bytes → Bytes) where
  pub follows : Bytes → Fetched → Bool
  follows origin_host f =
      (f.perform || f.truncated)
      && (is_redirect_code f.code
          && (not (is_empty f.next)
              && (not (is_empty origin_host) && eq (url_hostname f.next) origin_host)))

  -- The loop with `left` hops left: the URLs that are requested, and the response.
  pub hops : ℕ → Bytes → Bytes → List Bytes × Response
  hops zero origin_host current = (current ∷ [], respond (fetch current))
  hops (suc left) origin_host current =
      let (urls, response) = hops left origin_host (fetch current).next in
      if follows origin_host (fetch current)
      then (current ∷ urls, response)
      else (current ∷ [], respond (fetch current))

  pub get : Bytes → List Bytes × Response
  get url = hops max_redirect_hops (url_hostname url) url
