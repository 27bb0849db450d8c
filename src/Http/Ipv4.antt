-- ===== src/Http/Ipv4.antt =====
-- The IPv4 addresses of rust/firmware/esp32s3/src/main.rs, and the DHCP server's lease.
use esp_wave_rider.Base.{
  ℕ, ◌+◌, ◌%◌, Option, none, some, List, [], ◌∷◌, ◌++◌, get_or, ◌>>=◌ as option_bind,
}
use esp_wave_rider.Text.{Text, split}
use esp_wave_rider.Text.Number.{parse_u8}
use esp_wave_rider.Json.{append_u32}

-- Four octets.
pub record Ipv4Address : Type 0 where
  pub a : ℕ
  pub b : ℕ
  pub c : ℕ
  pub d : ℕ

-- The sixth byte of the client's address chooses the host.
unfoldable pub dhcp_lease_address : List ℕ → Ipv4Address
dhcp_lease_address client_mac = record {
  a = 192;
  b = 168;
  c = 4;
  d = 20 + get_or client_mac 5 0 % 200;
}

unfoldable pub ipv4_address_string : Ipv4Address → Text
ipv4_address_string address =
    append_u32
      (append_u32 (append_u32 (append_u32 [] address.a ++ b'.' ∷ []) address.b ++ b'.' ∷ [])
          address.c
        ++ b'.' ∷ [])
      address.d

-- Exactly four parts, each an octet.
abbrev pub octets_of : List Text → Option Ipv4Address
octets_of (p ∷ q ∷ r ∷ s ∷ []) = option_bind (parse_u8 p) (λ a. option_bind (parse_u8 q) (λ b.
    option_bind (parse_u8 r)
      (λ c. option_bind (parse_u8 s) (λ d. some (record { a = a; b = b; c = c; d = d })))))
octets_of _ = none

unfoldable pub parse_ipv4_address : Text → Option Ipv4Address
parse_ipv4_address value = octets_of (split value b'.')
