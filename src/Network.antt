-- ===== src/Network.antt =====
-- network/interfaces.py: which addresses are on the local network, and the URL of the stream. The
-- readers of the standard library are parameters.
use openframetap.Texts.{all_of, text}
use openframetap.Prelude.{
  ◌&&◌, leb, length, not, reject_if, none, ◌>>◌, some, ok, [], ◌||◌, ◌^◌, ◌>>=◌, ◌++◌, err, ◌∷◌,
  ◌==◌, ◌/◌, false, Result, Option, ℕ, List, Bool,
}

-- ipaddress.ip_address's two classes
pub data IpAddress : Type 0 where
  ipv4 ipv6 : ℕ → IpAddress

-- What urllib.parse.urlsplit gives; the port is absent, a number, or refused.
pub record SplitUrl : Type 0 where
  pub scheme : List ℕ
  pub hostname : Option (List ℕ)
  pub port : Option (Option ℕ)
  pub path : List ℕ
  pub query : List ℕ
  pub fragment : List ℕ
  pub username : Option (List ℕ)
  pub password : Option (List ℕ)

-- bytes.decode("utf-8"), urlsplit, ip_address and str of a number; each of the first three may refuse.
pub record Readers : Type 0 where
  pub decode_utf8 : List ℕ → Option (List ℕ)
  pub urlsplit : List ℕ → Option SplitUrl
  pub ip_address : List ℕ → Option IpAddress
  pub decimal : ℕ → List ℕ

-- 10.0.0.0/8, 172.16.0.0/12 and 192.168.0.0/16
abbrev pub in_rfc1918 : ℕ → Bool
in_rfc1918 n = n / 2 ^ 24 == 10 || n / 2 ^ 20 == 2753 || n / 2 ^ 16 == 49320

-- 100.64.0.0/10
abbrev pub in_tailscale_cgnat : IpAddress → Bool
in_tailscale_cgnat (ipv4 n) = n / 2 ^ 22 == 401
in_tailscale_cgnat (ipv6 n) = false

abbrev pub is_private : IpAddress → Bool
is_private (ipv4 n) = in_rfc1918 n
is_private (ipv6 n) = false

pub data NetworkError : Type 0 where
  not_an_address target_not_private stream_key_invalid port_outside : NetworkError

abbrev pub or_no_address : Option IpAddress → Result NetworkError IpAddress
or_no_address none = err not_an_address
or_no_address (some a) = ok a

module _ (r : Readers) where
  -- ip_address, with its ValueError
  abbrev pub read_address : List ℕ → Result NetworkError IpAddress
  read_address value = or_no_address (r.ip_address value)

  unfoldable pub is_rfc1918 : List ℕ → Result NetworkError Bool
  is_rfc1918 value = do address ← read_address value; ok (is_private address)

  -- character in "/?#\\\r\n"
  abbrev pub is_reserved : ℕ → Bool
  is_reserved c = c == 47 || c == 63 || c == 35 || c == 92 || c == 13 || c == 10

  unfoldable pub build_rtmp_url : List ℕ → List ℕ → ℕ → Result NetworkError (List ℕ)
  unfolding is_rfc1918
  build_rtmp_url address stream_key port = do
    private ← is_rfc1918 address
    reject_if (not private) target_not_private
    parsed ← read_address address
    reject_if (in_tailscale_cgnat parsed) target_not_private
    reject_if (length stream_key == 0 || not (all_of (λ c. not (is_reserved c)) stream_key))
        stream_key_invalid
    reject_if (not (leb 1 port && leb port 65535)) port_outside
    ok (text "rtmp://" ++ address ++ (58 ∷ []) ++ r.decimal port ++ text "/live/" ++ stream_key)

unfoldable pub mask_identifier : List ℕ → List ℕ
mask_identifier [] = []
mask_identifier (c ∷ []) = text "*"
mask_identifier (c ∷ d ∷ cs) = c ∷ text "***" ++ (last_of d cs ∷ [])
  where
    last_of : ℕ → List ℕ → ℕ
    last_of d [] = d
    last_of d (x ∷ xs) = last_of x xs
