-- ===== src/Http/Address.antt =====
-- IPv4 addresses, written and read.
use esp_wave_rider.Base.{
  ℕ, ◌<◌, ◌≡◌, ◌≢◌, refl, ap, ◌∙◌, some, [], ◌∷◌, ◌++◌, All, append_assoc, arith,
}
use esp_wave_rider.Text.{Text, split}
use esp_wave_rider.Text.Laws.{split-append, split_single}
use esp_wave_rider.Text.Number.{parse_u8}
use esp_wave_rider.Json.{fill_digits, append_u32}
use esp_wave_rider.Json.Decimal.{fill_digits-All, parse_unsigned-written}
use esp_wave_rider.Http.Ipv4.{Ipv4Address, ipv4_address_string, parse_ipv4_address}

abbrev octet : ℕ → Text
octet n = fill_digits 10 n []

-- The four octets, with dots between.
abbrev dotted : Ipv4Address → Text
dotted address =
    octet address.a
    ++ (b'.' ∷ (octet address.b ++ (b'.' ∷ (octet address.c ++ (b'.' ∷ octet address.d)))))

ipv4_address_string-eq : (address : Ipv4Address) → ipv4_address_string address ≡ dotted address
unfolding ipv4_address_string append_u32
ipv4_address_string-eq address = simp append_assoc

split_dotted :
    (a b c d : Text)
    → All (λ x. x ≢ b'.') a
    → All (λ x. x ≢ b'.') b
    → All (λ x. x ≢ b'.') c
    → All (λ x. x ≢ b'.') d
    → split (a ++ (b'.' ∷ (b ++ (b'.' ∷ (c ++ (b'.' ∷ d)))))) b'.' ≡ a ∷ b ∷ c ∷ d ∷ []
split_dotted a b c d ha hb hc hd =
    split-append a (b ++ (b'.' ∷ (c ++ (b'.' ∷ d)))) b'.' ha
    ∙ ap (λ l. a ∷ l)
        (split-append b (c ++ (b'.' ∷ d)) b'.' hb
          ∙ ap (λ l. b ∷ l) (split-append c d b'.' hc ∙ ap (λ l. c ∷ l) (split_single d b'.' hd)))

parse_u8-octet : (n : ℕ) → n < 256 → parse_u8 (octet n) ≡ some n
unfolding parse_u8
parse_u8-octet n h = parse_unsigned-written 255 n (omega arith) (omega arith)

pub record IsAddress (address : Ipv4Address) : Type 0 where
  pub first : address.a < 256
  pub second : address.b < 256
  pub third : address.c < 256
  pub fourth : address.d < 256

-- An address of four octets that is written with dots is read as the same address.
pub parse_ipv4_address-ipv4_address_string :
    (address : Ipv4Address)
    → IsAddress address
    → parse_ipv4_address (ipv4_address_string address) ≡ some address
unfolding parse_ipv4_address
parse_ipv4_address-ipv4_address_string address h =
    let no_dot = λ (n : ℕ). fill_digits-All (λ c. c ≢ b'.') (λ d small e. omega arith) 10 n [] tt in
    rw
      (
        ipv4_address_string-eq address,
        split_dotted (octet address.a) (octet address.b) (octet address.c) (octet address.d)
            (no_dot address.a) (no_dot address.b) (no_dot address.c) (no_dot address.d),
        parse_u8-octet address.a h.first,
        parse_u8-octet address.b h.second,
        parse_u8-octet address.c h.third,
        parse_u8-octet address.d h.fourth,
      )
      refl
