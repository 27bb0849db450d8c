-- ===== src/Http/Reading.antt =====
-- How a request is read that arrives in several parts.
use esp_wave_rider.Base.{
  ℕ, ◌+◌, ◌-◌, ◌≤◌, ◌<◌, ◌≡◌, ◌≢◌, refl, sym, ap, ◌∙◌, Bool, true, false, not, ◌&&◌, Option, none,
  some, List, [], ◌∷◌, ◌++◌, map, concat, length, take, take_all, length-append, append_assoc, All,
  leb, arith, append-nil,
}
use esp_wave_rider.Text.{Text, codes, is_some}
use esp_wave_rider.Text.Laws.{is_empty_of_ne}
use esp_wave_rider.Text.Utf8.{IsChar, as_bytes, from_utf8}
use esp_wave_rider.Text.Cut.{from_utf8_cut, find?-append_some}
use esp_wave_rider.Text.Results.{Result, err}
use esp_wave_rider.Fixed.{FixedString}
use esp_wave_rider.Http.{
  HttpRoute, http_response, find_http_header_end, decide_request, or_continue, read_requests,
  read_http_route, failed,
}

-- The request is whole, with the answer `r`, and no shorter start of it is.
pub record IsRequest (str : FixedString) (request : List ℕ) (r : Result HttpRoute) : Type 0 where
  pub whole : decide_request str request ≡ some r
  pub fits : length request ≤ 1024
  pub minimal :
      (start rest : List ℕ) → start ++ rest ≡ request → rest ≢ [] → decide_request str start ≡ none

-- Every start of the bytes, behind those read already, waits for more.
unfoldable pub waits : FixedString → List ℕ → List ℕ → Bool
waits str start [] = true
waits str start (byte ∷ rest) =
    not (is_some (decide_request str start)) && waits str (start ++ byte ∷ []) rest

none_of_not_some : {A : Type 0} (o : Option A) → not (is_some o) ≡ true → o ≡ none
none_of_not_some none h = refl
none_of_not_some (some x) h = absurd (ground arith)

pub waits-none :
    (str : FixedString) (done start rest : List ℕ)
    → waits str done (start ++ rest) ≡ true
    → rest ≢ []
    → decide_request str (done ++ start) ≡ none
unfolding waits
waits-none str done [] [] h more = absurd (more refl)
waits-none str done [] (byte ∷ rest) h more =
    ap (decide_request str) (append-nil done)
    ∙ none_of_not_some (decide_request str done) (ground arith)
waits-none str done (byte ∷ start) rest h more =
    ap (decide_request str) (sym (append_assoc done (byte ∷ []) start))
    ∙ waits-none str (done ++ byte ∷ []) start rest (ground arith) more

append-ne : (xs ys : List ℕ) → xs ≢ [] → xs ++ ys ≢ []
append-ne [] ys h = absurd (h refl)
append-ne (x ∷ xs) ys h = λ e. ground arith

length_of_ne : (xs : List ℕ) → xs ≢ [] → 0 < length xs
length_of_ne [] h = absurd (h refl)
length_of_ne (x ∷ xs) h = omega arith

module _ (str : FixedString) where
  -- A part that leaves room for its bytes, and is not empty, is decided on or waits for the next.
  read_requests-step :
      (buffer bytes : List ℕ) (reads : List (Option (List ℕ)))
      → bytes ≢ []
      → length buffer + length bytes ≤ 1024
      → read_requests str buffer (some bytes ∷ reads)
        ≡ or_continue str
            (decide_request str (buffer ++ bytes))
            (read_requests str (buffer ++ bytes) reads)
  unfolding read_requests
  read_requests-step buffer bytes reads given room =
      let some_room : leb 1024 (length buffer) ≡ false =
        let n = length_of_ne bytes given in ground arith in
      let all : take (1024 - length buffer) bytes ≡ bytes =
        take_all (1024 - length buffer) bytes (omega arith) in
      rw (some_room, is_empty_of_ne bytes given, all) refl

  read_requests-parts :
      (request : List ℕ) (r : Result HttpRoute) (buffer part : List ℕ) (parts : List (List ℕ))
      → IsRequest str request r
      → All (λ bytes. bytes ≢ []) (part ∷ parts)
      → buffer ++ (part ++ concat parts) ≡ request
      → read_requests str buffer (map some (part ∷ parts)) ≡ some r
  read_requests-parts request r buffer part [] h (given, tt) whole =
      let all : buffer ++ part ≡ request = ap (λ l. buffer ++ l) (sym (append-nil part)) ∙ whole in
      let size = length-append buffer part in
      read_requests-step buffer part [] given (omega (arith, ap length all, size, h.fits))
      ∙ ap (λ b. or_continue str (decide_request str b) (read_requests str (buffer ++ part) [])) all
      ∙ rw (h.whole) refl
  read_requests-parts request r buffer part (next ∷ parts) h (given, (given', rest)) whole =
      let joined : (buffer ++ part) ++ (next ++ concat parts) ≡ request =
        append_assoc buffer part (next ++ concat parts) ∙ whole in
      let size = length-append buffer part in
      let size' = length-append (buffer ++ part) (next ++ concat parts) in
      let wait : decide_request str (buffer ++ part) ≡ none =
        h.minimal (buffer ++ part) (next ++ concat parts) joined
          (append-ne next (concat parts) given') in
      read_requests-step buffer part (map some (next ∷ parts)) given
        (omega (arith, ap length joined, size, size', h.fits))
      ∙ rw wait (read_requests-parts request r (buffer ++ part) next parts h (given', rest) joined)

  -- It does not matter in which parts, none of them empty, a request of at most 1024 bytes arrives: if
  -- the whole is answered and no shorter start of it is, its parts get the answer of the whole.
  pub read_http_route-parts :
      (request : List ℕ) (r : Result HttpRoute) (part : List ℕ) (parts : List (List ℕ))
      → IsRequest str request r
      → All (λ bytes. bytes ≢ []) (part ∷ parts)
      → part ++ concat parts ≡ request
      → read_http_route str (map some (part ∷ parts)) ≡ some r
  unfolding read_http_route
  read_http_route-parts request r part parts h given whole =
      read_requests-parts request r [] part parts h given whole

  -- A first part of at most 1024 bytes that has the whole head and ends inside a character of the
  -- body, behind the first byte of the two, three or four that it takes, is refused as no UTF-8 at
  -- once, whatever follows.
  pub read_http_route_cut :
      (text : Text) (lead : ℕ) (reads : List (Option (List ℕ)))
      → All IsChar text
      → is_some (find_http_header_end (as_bytes text)) ≡ true
      → length (as_bytes text) < 1024
      → 0xc2 ≤ lead
      → lead < 0xf5
      → read_http_route str (some (as_bytes text ++ lead ∷ []) ∷ reads)
        ≡ some (
            err (
              http_response
                (codes "400 Bad Request")
                (codes "application/json")
                (codes "{\"error\":\"http_invalid_utf8\"}")))
  unfolding read_http_route
  read_http_route_cut text lead reads chars head fits low high =
      let cut = as_bytes text ++ lead ∷ [] in
      let found : is_some (find_http_header_end cut) ≡ true =
        unfold find_http_header_end in
        find?-append_some (as_bytes text) (13 ∷ 10 ∷ 13 ∷ 10 ∷ []) (lead ∷ [])
          (unfold find_http_header_end in head) in
      read_requests-step [] cut reads (not_empty (as_bytes text))
        (omega (arith, length-append (as_bytes text) (lead ∷ [])))
      ∙ ap (λ d. or_continue str d (read_requests str cut reads))
          (refuses cut (find_http_header_end cut) refl found
            (from_utf8_cut text lead chars low high))
    where
      not_empty : (xs : List ℕ) → xs ++ lead ∷ [] ≢ []
      not_empty [] = λ e. ground arith
      not_empty (x ∷ xs) = λ e. ground arith

      refuses :
          (buffer : List ℕ) (o : Option ℕ)
          → find_http_header_end buffer ≡ o
          → is_some o ≡ true
          → from_utf8 buffer ≡ none
          → decide_request str buffer
            ≡ some (failed (codes "400 Bad Request") (codes "{\"error\":\"http_invalid_utf8\"}"))
      refuses buffer none at found undecoded = absurd (ground arith)
      refuses buffer (some i) at found undecoded = unfold decide_request in rw (at, undecoded) refl
