-- ===== src/Engine/Address/Layout.antt =====
-- Which structure the constructors fill, and which text `getAddressStr` gives.
use unix_ipc.Prelude.{
  ℕ, ◌+◌, ◌*◌, ◌≡◌, refl, true, none, some, Bytes, pos, [], ◌∷◌, ◌++◌, take, drop, replicate, of_le,
  arith, store_at, c_string, List, if◌then◌else◌, Option-cases, inl, inr,
}
use unix_ipc.Sys.{Call, Os, ok, parses_address, pure, >>=-eq-ok}
use unix_ipc.Engine.Address.{
  SocketAddress, Statics, af_inet, htons_bytes, inaddr_any, of_ip, get_address_str, evaluate, view,
}

-- The fields of a `sockaddr_in`.
abbrev pub family_field : Bytes → ℕ
family_field sa = of_le (take 2 sa)

abbrev pub port_field : Bytes → Bytes
port_field sa = take 2 (drop 2 sa)

abbrev pub addr_field : Bytes → Bytes
addr_field sa = take 4 (drop 4 sa)

-- Without a text the address structure has the family of IPv4, the port in network order and the
-- wildcard address.
pub of_ip_any :
    (port : ℕ) (os : Os) (h : List Call)
    → (a : SocketAddress) × (of_ip none port os h ≡ (ok a, h))
      × (family_field a.socket_address ≡ af_inet)
      × (port_field a.socket_address ≡ htons_bytes port)
      × (addr_field a.socket_address ≡ inaddr_any)
unfolding of_ip store_at
of_ip_any port os h = (
  record {
    ip_address = none;
    port = port;
    socket_address = 2 ∷ 0 ∷ (htons_bytes port ++ replicate 12 0);
  },
  refl,
  refl,
  refl,
  refl,
)

-- With a text that parses, the four bytes of the address stand in the family and the port, and the
-- address is the wildcard.
pub of_ip_text :
    (text : Bytes) (port b0 b1 b2 b3 : ℕ) (os : Os) (h : List Call)
    → (os h (parses_address text)).result ≡ pos 1
    → (os h (parses_address text)).bytes ≡ b0 ∷ b1 ∷ b2 ∷ b3 ∷ []
    → (a : SocketAddress) × (of_ip (some text) port os h ≡ (ok a, parses_address text ∷ h))
      × (family_field a.socket_address ≡ b0 + 256 * b1)
      × (port_field a.socket_address ≡ b2 ∷ b3 ∷ [])
      × (addr_field a.socket_address ≡ inaddr_any)
unfolding of_ip store_at
of_ip_text text port b0 b1 b2 b3 os h r e = (
  record {
    ip_address = some text;
    port = port;
    socket_address = b0 ∷ b1 ∷ b2 ∷ b3 ∷ replicate 12 0;
  },
  rw (r, e),
  omega arith,
  refl,
  refl,
)

evaluated :
    (a : SocketAddress) (s t : Statics) (os : Os) (h g : List Call)
    → (if s.is_eval then pure s else evaluate a s) os h ≡ (ok t, g)
    → t.is_eval ≡ true
unfolding evaluate
evaluated a s t os h g e = ground arith

shown_again :
    (b : SocketAddress) (s t : Statics) (text : Bytes) (os : Os) (g' g : List Call)
    → s.is_eval ≡ true
    → view s os g' ≡ (ok (text, t), g)
    → get_address_str b t os g ≡ (ok (text, t), g)
unfolding get_address_str
shown_again b s t text os g' g v e = elim (Option-cases (c_string s.address_buff)) [
  | inl n ↦ ground arith
  | inr (x, p) ↦ ground arith
]

-- Once `getAddressStr` gave a text for one address, it gives that text for every address, without a
-- call.
pub get_address_str_shared :
    (a b : SocketAddress) (s t : Statics) (text : Bytes) (os : Os) (h g : List Call)
    → get_address_str a s os h ≡ (ok (text, t), g)
    → get_address_str b t os g ≡ (ok (text, t), g)
unfolding get_address_str
get_address_str_shared a b s t text os h g e =
    let (s', g', first, second) =
      >>=-eq-ok (if s.is_eval then pure s else evaluate a s) view os h e in
    shown_again b s' t text os g' g (evaluated a s s' os h g' first) second
