-- ===== src/Endpoint.antt =====
-- Endpoints, written `host:port`: how the constructor of replica (src/server/replica.cpp) and
-- try_join_cluster (apps/spl_server.cpp) write them, and how the constructor of client
-- (src/client/client.cpp), try_join_cluster and the main function of apps/spl_client.cpp read them.
-- `to_string`, `find`, `substr` and `stoi` are those of the C++ standard library.
pub mod RoundTrip
mod Tests
use replicated_splinterdb.Base.{
  ℕ, zero, suc, ◌+◌, ◌-◌, ◌*◌, ◌/◌, ◌%◌, ◌^◌, Bool, true, false, ◌&&◌, ◌||◌, Option, none, some,
  List, [], ◌∷◌, ◌++◌, take, drop, ℤ, pos, negsuc, ltb, leb, ◌==◌, if◌then◌else◌, Result, ok, throw,
  bind, invalid_argument, out_of_range,
}
use replicated_splinterdb.Nuraft.{Bytes}

-- The decimal digits of n before `out`; the fuel n + 1 is enough.
unfoldable pub digits : ℕ → ℕ → Bytes → Bytes
digits zero n out = out
digits (suc f) n out =
    let more = digits f (n / 10) ((b'0' + n % 10) ∷ out) in
    if ltb n 10 then (b'0' + n) ∷ out else more

unfoldable pub to_string : ℕ → Bytes
unfolding digits
to_string n = digits (suc n) n []

unfoldable pub is_digit : ℕ → Bool
is_digit c = leb b'0' c && leb c b'9'

-- isspace: the blank, and the codes from 9 to 13
unfoldable pub is_space : ℕ → Bool
is_space c = c == 32 || (leb 9 c && leb c 13)

unfoldable pub skip_space : Bytes → Bytes
skip_space [] = []
skip_space (c ∷ s) = let rest = skip_space s in if is_space c then rest else c ∷ s

-- The number that the digits at the front spell behind n.
unfoldable pub scan : ℕ → Bytes → ℕ
scan n [] = n
scan n (c ∷ s) = let more = scan (n * 10 + (c - b'0')) s in if is_digit c then more else n

unfoldable pub starts_with_digit : Bytes → Bool
starts_with_digit [] = false
starts_with_digit (c ∷ s) = is_digit c

-- The value of digits behind a sign, within an int.
unfoldable pub unsigned : Bytes → Result ℤ
unfolding is_digit scan starts_with_digit
unsigned s =
    if starts_with_digit s
    then (if ltb (scan 0 s) (2 ^ 31) then ok (pos (scan 0 s)) else throw (out_of_range "stoi"))
    else throw (invalid_argument "stoi")

unfoldable pub negative : Bytes → Result ℤ
unfolding is_digit scan starts_with_digit
negative s =
    if starts_with_digit s
    then (if scan 0 s == 0
        then ok (pos 0)
        else if leb (scan 0 s) (2 ^ 31)
        then ok (negsuc (scan 0 s - 1))
        else throw (out_of_range "stoi"))
    else throw (invalid_argument "stoi")

unfoldable pub signed : Bytes → Result ℤ
unfolding unsigned negative
signed [] = throw (invalid_argument "stoi")
signed (c ∷ s) =
    if c == b'-' then negative s else if c == b'+' then unsigned s else unsigned (c ∷ s)

unfoldable pub stoi : Bytes → Result ℤ
unfolding skip_space is_space signed
stoi s = signed (skip_space s)

-- s.find(c), `none` for npos
unfoldable pub find_char : ℕ → Bytes → Option ℕ
find_char c [] = none
find_char c (x ∷ s) =
    if x == c then some 0 else elim (find_char c s) [ none ↦ none | some i ↦ some (suc i) ]

-- substr(0, delim) and substr(delim + 1), where npos + 1 is 0
unfoldable pub host_part : Bytes → Bytes
unfolding find_char
host_part s = elim (find_char b':' s) [ none ↦ s | some i ↦ take i s ]

unfoldable pub port_part : Bytes → Bytes
unfolding find_char
port_part s = elim (find_char b':' s) [ none ↦ s | some i ↦ drop (suc i) s ]

-- The host and the port of an endpoint, the port as it is read.
unfoldable pub parse_endpoint : Bytes → Result (Bytes × ℤ)
unfolding host_part port_part stoi
parse_endpoint s = bind (stoi (port_part s)) λ port. ok (host_part s, port)

-- addr + ":" + std::to_string(port)
unfoldable pub endpoint : Bytes → ℕ → Bytes
unfolding to_string
endpoint addr port = addr ++ b':' ∷ to_string port

-- !(1 > port || port > 65535)
unfoldable pub valid_port : ℤ → Bool
valid_port (pos p) = leb 1 p && leb p 65535
valid_port (negsuc p) = false
