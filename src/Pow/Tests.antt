-- ===== src/Pow/Tests.antt =====
-- The theorems on the challenge at a concrete client. The library functions are simple ones of the
-- same types: the MAC is 32 equal bytes, and a printed number is as many ones.
use nginx_http_sentinel_modu.Prelude.{
  ℕ, zero, suc, ◌≡◌, ◌≢◌, refl, sym, ◌∙◌, true, [], ◌∷◌, ◌++◌, some, none, arith, codes, Bytes,
  length, replicate, length-replicate, bytes_eq,
}
use nginx_http_sentinel_modu.Nginx.{declined, done, ok, Request, inet}
use nginx_http_sentinel_modu.Pow.{
  PowLib, PowConf, check_value, check_cookie, cookie_mac, signed, identity, pow_hex, set_cookie,
  ttl_of, pow_challenge, pow_dispatch, behind_cookie, with_challenge, answer_nonce, get_nonce,
  find_in_parts, find_header, bounded_nonce, meets_difficulty, lead_bits, byte_bits,
}
use nginx_http_sentinel_modu.Pow.Gate.{Past, pow_dispatch_closed}
use nginx_http_sentinel_modu.Pow.Cookie.{NoDot, PowLaws, cookie_round_trip}

abbrev lib : PowLib
lib = record {
  hmac = λ key msg. some (replicate 32 7);
  sha256 = λ b. 0 ∷ 255 ∷ [];
  print = λ n. replicate (suc n) 49;
  atotm = λ b. elim (length b) [ zero ↦ none | suc n ↦ some n ];
  cookie = λ r name. none;
  strncasecmp_eq = λ s t n. bytes_eq s t;
  arg = λ r name. some (codes "42");
}

ones-NoDot : (n : ℕ) → NoDot (replicate n 49)
ones-NoDot zero = tt
ones-NoDot (suc n) = (refl, ones-NoDot n)

read_ones : (n m : ℕ) → n ≡ suc m → (elim n [ zero ↦ none | suc k ↦ some k ]) ≡ some m
read_ones n m e = rw e refl

lib-PowLaws : PowLaws lib
lib-PowLaws = record {
  digest = λ key msg out e. digest_size out e;
  digits = λ n. (ones-NoDot (suc n), omega arith);
  read = λ n. read_ones (length (replicate (suc n) 49)) n (length-replicate (suc n) 49);
}
  where
    digest_size : (out : Bytes) → some (replicate 32 7) ≡ some out → length out ≡ 32
    digest_size out e = ground arith

abbrev conf : PowConf
conf = record { enabled = true; secret = codes "k"; difficulty = 8; ttl = 2 }

abbrev request : Request
request = record {
  uri = codes "/";
  method = 2;
  http_version = 1001;
  headers = [] ∷ [];
  host = none;
  content_length = none;
  transfer_encoding = none;
  user_agent = none;
  accept = none;
  accept_language = none;
  accept_encoding = none;
  addr_text = codes "192.0.2.1";
  sockaddr = some (inet (192 ∷ 0 ∷ 2 ∷ 1 ∷ []));
  err_status = 0;
  out_status = 200;
}

-- The cookie set at time 1, which runs out at 3.
abbrev value : Bytes
value = (49 ∷ 49 ∷ 49 ∷ 49 ∷ []) ++ (b'.' ∷ pow_hex (replicate 32 7))

value_set : set_cookie lib conf request 1 true ≡ some value
unfolding set_cookie cookie_mac signed identity ttl_of
value_set = refl

-- Another request of the client.
abbrev other : Request
other = record request { uri = codes "/other" }

cookie_round_trip_example : check_value lib conf other 2 value ≡ ok
unfolding ttl_of
cookie_round_trip_example =
    cookie_round_trip lib conf request other 1 2 value lib-PowLaws refl refl value_set

challenged : pow_challenge lib conf request 1 ≡ some (pow_hex (replicate 32 7))
unfolding pow_challenge signed identity
challenged = refl

some-none : {A : Type 0} (a : A) → some a ≢ none
some-none a h = cc

declined-done : declined ≢ done
declined-done h = cc

solved : (pow_dispatch lib conf request 1 true true).rc ≡ declined
unfolding pow_dispatch check_cookie behind_cookie with_challenge pow_challenge signed identity
    answer_nonce get_nonce find_in_parts find_header bounded_nonce meets_difficulty lead_bits
    byte_bits
solved = refl

pow_dispatch_closed_example :
    Past lib conf request 1 true (pow_dispatch lib conf request 1 true true).rc
pow_dispatch_closed_example =
    pow_dispatch_closed lib conf request 1 true true refl (omega arith)
      (λ e. some-none (pow_hex (replicate 32 7)) (sym challenged ∙ e))
      (λ e. declined-done (sym solved ∙ e))
