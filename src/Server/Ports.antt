-- ===== src/Server/Ports.antt =====
-- The arguments of `main` in src/zbroker_asio.cc.
use zbroker.Base.{
  refl, if◌then◌else◌, inr, system_error, inl, err, false, Result, Bool-cases, ℕ, ◌%◌, ◌^◌, ◌<◌,
  ◌≡◌, ap, sym, ◌∙◌, Bool, true, List, [], ◌∷◌, ◌++◌, append-nil, append_assoc, map, ok, decimal,
  pos, atoi, All, lt→ltb, atoi-decimal,
}
use zbroker.Server.{in_use, port_of, serve_ports, Started, main}

port_of-decimal : (n : ℕ) → n < 2 ^ 31 → port_of (decimal n) ≡ ok (n % 2 ^ 16)
unfolding port_of
port_of-decimal n h = rw (read, port_of)
  where
    read : atoi (decimal n) ≡ ok (pos n)
    read = atoi-decimal n (lt→ltb n (2 ^ 31) h)

-- Whether an argument names a port that one before it, or one of these, has.
abbrev pub clash : List ℕ → List ℕ → Bool
clash ports [] = false
clash ports (n ∷ numbers) =
    let later = clash (ports ++ n % 2 ^ 16 ∷ []) numbers in
    if in_use (n % 2 ^ 16) ports then true else later

abbrev served : Bool → List ℕ → Result (List ℕ)
served true ports = err system_error
served false ports = ok ports

serve_ports-decimal :
    (bind : ℕ → Bool) (numbers ports : List ℕ)
    → ((port : ℕ) → bind port ≡ true)
    → All (λ n. n < 2 ^ 31) numbers
    → serve_ports bind (map decimal numbers) ports
      ≡ served (clash ports numbers) (ports ++ map (λ n. n % 2 ^ 16) numbers)
unfolding serve_ports
serve_ports-decimal bind [] ports free h = ap ok (sym (append-nil ports))
serve_ports-decimal bind (n ∷ numbers) ports free (b, h) =
    elim (Bool-cases (in_use (n % 2 ^ 16) ports)) [
      | inl u ↦ rw (port_of-decimal n b, free (n % 2 ^ 16), u, serve_ports) refl
      | inr u ↦
          rw (port_of-decimal n b, free (n % 2 ^ 16), u, serve_ports)
            (serve_ports-decimal bind numbers (ports ++ n % 2 ^ 16 ∷ []) free h
              ∙ ap (served (clash (ports ++ n % 2 ^ 16 ∷ []) numbers))
                  (append_assoc ports (n % 2 ^ 16 ∷ []) (map (λ m. m % 2 ^ 16) numbers)))
    ]

-- Where every port is free at first, and each argument is a decimal number that is an int: `main`
-- serves for each the number modulo 65536, in their order, so a larger number is no error, but
-- another port; unless one of these ports other than 0 comes twice, and then `main` exits with
-- status 0.
pub main-decimal :
    (bind : ℕ → Bool) (n : ℕ) (numbers : List ℕ)
    → ((port : ℕ) → bind port ≡ true)
    → All (λ m. m < 2 ^ 31) (n ∷ numbers)
    → main bind (map decimal (n ∷ numbers))
      ≡ ok (
          if clash [] (n ∷ numbers)
          then Started.exits 0
          else Started.serving (map (λ m. m % 2 ^ 16) (n ∷ numbers)))
unfolding main
main-decimal bind n numbers free h = elim (Bool-cases (clash [] (n ∷ numbers))) [
  | inl u ↦ rw (serve_ports-decimal bind (n ∷ numbers) [] free h, u, main) refl
  | inr u ↦ rw (serve_ports-decimal bind (n ∷ numbers) [] free h, u, main) refl
]
