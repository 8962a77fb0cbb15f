-- ===== src/Processor/Requests.antt =====
-- What `process` of src/asio_processor.cc does with the number of a command.
use zbroker.Base.{
  ℤ, pos, negsuc, ℕ, suc, zero, ◌+◌, ◌-◌, ◌<◌, ◌≤◌, ◌≡◌, refl, inl, inr, ◌⊎◌, some, Text, codes,
  err, thrown_text, arith, ltb, Bool-cases, subst, false,
}
use zbroker.Bson.{Bson}
use zbroker.Protocol.{Command, open_cmd, close_cmd, read_cmd, write_cmd, rewind_cmd, success}
use zbroker.Reply.{parse_request, in_command_range, command_of}
use zbroker.Processor.{Processor, Surroundings}
use zbroker.Processor.Serving.{process, process_json, dispatch}

-- The numbers that are served, by src/protocol.h.
pub data Served : ℤ → Command → Type 0 where
  number_100 : Served (pos 100) open_cmd
  number_101 : Served (pos 101) close_cmd
  number_102 : Served (pos 102) read_cmd
  number_103 : Served (pos 103) write_cmd
  number_106 : Served (pos 106) rewind_cmd

-- All others, each with what is thrown for it.
pub data Unserved : ℤ → Text → Type 0 where
  negative : (n : ℕ) → Unserved (negsuc n) (codes "process error")
  below : (n : ℕ) → n < 100 → Unserved (pos n) (codes "process error")
  above : (n : ℕ) → 106 < n → Unserved (pos n) (codes "process error")
  number_104 : Unserved (pos 104) (codes "UnknownCommand")
  number_105 : Unserved (pos 105) (codes "UnknownCommand")

-- Every number is one or the other.
abbrev Meant : ℤ → Type 0
Meant n = ((cmd : Command) × Served n cmd) ⊎ ((what : Text) × Unserved n what)

within : (k : ℕ) → k ≤ 6 → Meant (pos (100 + k))
within zero h = inl (open_cmd, number_100)
within (suc zero) h = inl (close_cmd, number_101)
within (suc (suc zero)) h = inl (read_cmd, number_102)
within (suc (suc (suc zero))) h = inl (write_cmd, number_103)
within (suc (suc (suc (suc zero)))) h = inr (codes "UnknownCommand", number_104)
within (suc (suc (suc (suc (suc zero))))) h = inr (codes "UnknownCommand", number_105)
within (suc (suc (suc (suc (suc (suc zero)))))) h = inl (rewind_cmd, number_106)
within (suc (suc (suc (suc (suc (suc (suc k))))))) h = absurd (omega arith)

meant : (n : ℤ) → Meant n
meant (negsuc n) = inr (codes "process error", negative n)
meant (pos n) = elim (Bool-cases (ltb n 100)) [
  | inl f ↦ inr (codes "process error", below n (ground arith))
  | inr f ↦ elim (Bool-cases (ltb 106 n)) [
    | inl g ↦ inr (codes "process error", above n (ground arith))
    | inr g ↦
        let low : 100 ≤ n = ground arith in
        let high : n ≤ 106 = ground arith in
        let e : 100 + (n - 100) ≡ n = omega arith in
        subst (λ m. Meant (pos m)) e (within (n - 100) (omega arith))
  ]
]

below_range : (n : ℕ) → n < 100 → in_command_range (pos n) ≡ false
unfolding in_command_range
below_range n h = ground arith

above_range : (n : ℕ) → 106 < n → in_command_range (pos n) ≡ false
unfolding in_command_range
above_range n h = ground arith

module _ (bson : Bson) where
  open bson use {Obj, int_field, object_field, from_json}

  served :
      (env : Surroundings Obj) (json : Text) (request : Obj) (n : ℤ) (cmd : Command)
      (s : Processor Obj)
      → from_json json ≡ some request
      → int_field request (codes "cmd") ≡ n
      → Served n cmd
      → process_json bson env json s
        ≡ process bson env success cmd (object_field request (codes "body")) s
  unfolding process_json parse_request in_command_range command_of
  served env json request n cmd s h e number_100 = rw (h, e, process_json, parse_request) refl
  served env json request n cmd s h e number_101 = rw (h, e, process_json, parse_request) refl
  served env json request n cmd s h e number_102 = rw (h, e, process_json, parse_request) refl
  served env json request n cmd s h e number_103 = rw (h, e, process_json, parse_request) refl
  served env json request n cmd s h e number_106 = rw (h, e, process_json, parse_request) refl

  refused :
      (env : Surroundings Obj) (json : Text) (request : Obj) (n : ℤ) (what : Text)
      (s : Processor Obj)
      → from_json json ≡ some request
      → int_field request (codes "cmd") ≡ n
      → Unserved n what
      → process_json bson env json s ≡ some (s, err (thrown_text what))
  unfolding process_json parse_request process dispatch in_command_range command_of
  refused env json request n what s h e (negative _) = rw (h, e, process_json, parse_request) refl
  refused env json request n what s h e (below m o) =
      rw (h, e, below_range m o, process_json, parse_request) refl
  refused env json request n what s h e (above m o) =
      rw (h, e, above_range m o, process_json, parse_request) refl
  refused env json request n what s h e number_104 = rw (h, e, process_json, parse_request) refl
  refused env json request n what s h e number_105 = rw (h, e, process_json, parse_request) refl

  -- A request that is JSON, whatever its number. By the numbers of the protocol, 100, 101, 102, 103
  -- and 106, it is processed as that command with the object `body` of the request. For any other
  -- number an exception is thrown and the processor stays as it was: outside 100 to 106 with one
  -- text, and for 104 and 105, which `parse_request` lets through, with another.
  pub process_json-Served :
      (env : Surroundings Obj) (json : Text) (request : Obj) (s : Processor Obj)
      → from_json json ≡ some request
      → ((cmd : Command) × Served (int_field request (codes "cmd")) cmd
          × (process_json bson env json s
              ≡ process bson env success cmd (object_field request (codes "body")) s))
        ⊎ ((what : Text) × Unserved (int_field request (codes "cmd")) what
            × (process_json bson env json s ≡ some (s, err (thrown_text what))))
  process_json-Served env json request s h = elim (meant (int_field request (codes "cmd"))) [
    | inl (cmd, v) ↦ inl (cmd, v, served env json request _ cmd s h refl v)
    | inr (what, v) ↦ inr (what, v, refused env json request _ what s h refl v)
  ]
