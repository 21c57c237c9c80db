-- ===== src/Http/Redirects/Hosts.antt =====
-- Where redirects lead.
use hai_code.Base.{
  Bytes, ℕ, zero, suc, ◌≤◌, ◌≡◌, refl, true, false, List, [], ◌∷◌, length, All, eq_iff, arith,
  Bool-cases, inl, inr,
}
use hai_code.Permission.Path.{is_empty}
use hai_code.Http.Redirects.{Fetched, follows, hops, get, max_redirect_hops}

-- The URL is on the host, which is known.
pub OnHost : (Bytes → Bytes) → Bytes → Bytes → Type 0
OnHost url_hostname host url = (url_hostname url ≡ host) × (is_empty host ≡ false)

-- The URLs start with `url`, and those behind it are on the host.
pub Behind : (Bytes → Bytes) → Bytes → Bytes → List Bytes → Type 0
Behind url_hostname host url [] = ⊥
Behind url_hostname host url (u ∷ us) = (u ≡ url) × All (OnHost url_hostname host) us

module _ (fetch : Bytes → Fetched) (url_hostname : Bytes → Bytes) where
  follows-OnHost :
      (host : Bytes) (f : Fetched)
      → follows fetch url_hostname host f ≡ true
      → OnHost url_hostname host f.next
  unfolding follows OnHost
  follows-OnHost host f h = (ground (arith, h, eq_iff (url_hostname f.next) host), ground arith)

  hops-All :
      (left : ℕ) (host current : Bytes)
      → OnHost url_hostname host current
      → All (OnHost url_hostname host) (hops fetch url_hostname left host current).0
  unfolding hops
  hops-All zero host current h = (h, tt)
  hops-All (suc left) host current h =
      elim (Bool-cases (follows fetch url_hostname host (fetch current))) [
        | inl go ↦
            let next = follows-OnHost host (fetch current) go in
            rw go (h, hops-All left host (fetch current).next next)
        | inr stop ↦ rw stop (h, tt)
      ]

  hops-Behind :
      (left : ℕ) (host current : Bytes)
      → Behind url_hostname host current (hops fetch url_hostname left host current).0
  unfolding hops Behind
  hops-Behind zero host current = (refl, tt)
  hops-Behind (suc left) host current =
      elim (Bool-cases (follows fetch url_hostname host (fetch current))) [
        | inl go ↦
            let next = follows-OnHost host (fetch current) go in
            rw go (refl, hops-All left host (fetch current).next next)
        | inr stop ↦ rw stop (refl, tt)
      ]

  length-hops :
      (left : ℕ) (host current : Bytes)
      → length (hops fetch url_hostname left host current).0 ≤ suc left
  unfolding hops
  length-hops zero host current = omega arith
  length-hops (suc left) host current =
      elim (Bool-cases (follows fetch url_hostname host (fetch current))) [
        | inl go ↦ let bound = length-hops left host (fetch current).next in rw go (omega arith)
        | inr stop ↦ rw stop (omega arith)
      ]

  -- A request goes to the URL it is given first, and after that only to URLs whose host name is that
  -- URL's, and only where that name is known; there are at most six requests.
  pub get-Behind :
      (url : Bytes)
      → Behind url_hostname (url_hostname url) url (get fetch url_hostname url).0
        × (length (get fetch url_hostname url).0 ≤ 6)
  unfolding get
  get-Behind url = (
    hops-Behind max_redirect_hops (url_hostname url) url,
    length-hops max_redirect_hops (url_hostname url) url,
  )
