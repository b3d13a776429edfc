-- ===== src/Endpoint/RoundTrip.antt =====
-- Endpoints, from the server side that writes them to the client side that reads them.
use replicated_splinterdb.Base.{
  ℕ, zero, suc, ◌+◌, ◌-◌, ◌*◌, ◌/◌, ◌%◌, ◌^◌, ◌≤◌, ◌<◌, ◌≡◌, ◌≢◌, refl, sym, ap, inl, inr,
  Bool-cases, ltb→lt, ◌∙◌, some, [], ◌∷◌, ◌++◌, length, take, drop, All, pos, ltb, ok, bind, arith,
}
use replicated_splinterdb.Nuraft.{Bytes}
use replicated_splinterdb.Endpoint.{
  digits, to_string, is_digit, scan, stoi, find_char, host_part, port_part, parse_endpoint,
  endpoint,
}

scan-nil : (n : ℕ) → scan n [] ≡ n
unfolding scan
scan-nil n = refl

scan_step : (m d : ℕ) (s : Bytes) → d < 10 → scan m ((b'0' + d) ∷ s) ≡ scan (m * 10 + d) s
unfolding scan is_digit
scan_step m d s h =
    let e : m * 10 + (b'0' + d - b'0') ≡ m * 10 + d = omega arith in
    ground (arith, ap (λ (k : ℕ). scan k s) e)

scan-digits : (f n : ℕ) (out : Bytes) → n < f → scan 0 (digits f n out) ≡ scan n out
unfolding digits
scan-digits zero n out h = absurd (omega arith)
scan-digits (suc f) n out h = elim (Bool-cases (ltb n 10)) [
  | inl short ↦ rw short (
      scan_step 0 n out (ltb→lt n 10 short)
      ∙ ap (λ (k : ℕ). scan k out) (let e : 0 * 10 + n ≡ n = omega arith in e))
  | inr long ↦ rw long (
      scan-digits f (n / 10) _ (ground arith)
      ∙ scan_step (n / 10) (n % 10) out (omega arith)
      ∙ ap (λ (k : ℕ). scan k out) (let e : n / 10 * 10 + n % 10 ≡ n = omega arith in e))
]

digits_start :
    (f n : ℕ) (out : Bytes)
    → n < f
    → (c : ℕ) × (s : Bytes) × (digits f n out ≡ c ∷ s) × (b'0' ≤ c) × (c ≤ b'9')
unfolding digits
digits_start zero n out h = absurd (omega arith)
digits_start (suc f) n out h = elim (Bool-cases (ltb n 10)) [
  | inl short ↦ (b'0' + n, out, rw short, omega arith, omega (arith, ltb→lt n 10 short))
  | inr long ↦
      let (c, s, e, lo, hi) = digits_start f (n / 10) ((b'0' + n % 10) ∷ out) (ground arith) in
      (c, s, rw long e, lo, hi)
]

-- `stoi` on a text that begins with a digit.
stoi_digits :
    (c : ℕ) (s : Bytes)
    → b'0' ≤ c
    → c ≤ b'9'
    → scan 0 (c ∷ s) < 2 ^ 31
    → stoi (c ∷ s) ≡ ok (pos (scan 0 (c ∷ s)))
unfolding stoi
stoi_digits c s lo hi fits = ground arith

stoi-to_string : (n : ℕ) → n < 2 ^ 31 → stoi (to_string n) ≡ ok (pos n)
unfolding to_string
stoi-to_string n h =
    let (c, s, e, lo, hi) = digits_start (suc n) n [] (omega arith) in
    let value : scan 0 (c ∷ s) ≡ n =
      ap (scan 0) (sym e) ∙ scan-digits (suc n) n [] (omega arith) ∙ scan-nil n in
    rw e (stoi_digits c s lo hi (omega arith) ∙ rw value)

find_char-append :
    (addr rest : Bytes)
    → All (λ c. c ≢ b':') addr
    → find_char b':' (addr ++ b':' ∷ rest) ≡ some (length addr)
unfolding find_char
find_char-append [] rest h = refl
find_char-append (x ∷ addr) rest h = ground (arith, find_char-append addr rest h.1, h.0)

take-append : (xs ys : Bytes) → take (length xs) (xs ++ ys) ≡ xs
take-append [] ys = refl
take-append (x ∷ xs) ys = ap (◌∷◌ x) (take-append xs ys)

drop-append : (xs : Bytes) (y : ℕ) (ys : Bytes) → drop (suc (length xs)) (xs ++ y ∷ ys) ≡ ys
drop-append [] y ys = refl
drop-append (x ∷ xs) y ys = drop-append xs y ys

host_part-append :
    (addr rest : Bytes) → All (λ c. c ≢ b':') addr → host_part (addr ++ b':' ∷ rest) ≡ addr
unfolding host_part
host_part-append addr rest h =
    rw (find_char-append addr rest h, host_part) (take-append addr (b':' ∷ rest))

port_part-append :
    (addr rest : Bytes) → All (λ c. c ≢ b':') addr → port_part (addr ++ b':' ∷ rest) ≡ rest
unfolding port_part
port_part-append addr rest h =
    rw (find_char-append addr rest h, port_part) (drop-append addr b':' rest)

-- The endpoint of a host without a colon and a port below 2^31 is read back as that host and that
-- port.
pub parse_endpoint-endpoint :
    (addr : Bytes) (port : ℕ)
    → All (λ c. c ≢ b':') addr
    → port < 2 ^ 31
    → parse_endpoint (endpoint addr port) ≡ ok (addr, pos port)
unfolding parse_endpoint endpoint
parse_endpoint-endpoint addr port h fits =
    rw (port_part-append addr (to_string port) h, host_part-append addr (to_string port) h)
      (ap (λ r. bind r (λ p. ok (addr, p))) (stoi-to_string port fits))
