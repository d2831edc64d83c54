-- ===== src/Automation/Primitives.antt =====
-- `_write_holding_register`, `_write_holding_registers` and `_read_holding_register` of collector/automation.py.
pub mod Accepted
use lux_mon.Base.{
  ℕ, ◌+◌, ◌≡◌, refl, List, [], ◌∷◌, Bool, true, false, ◌&&◌, ◌||◌, not, Option, none, some, ◌==◌,
  if◌then◌else◌, Outcome, ok, raised, index_error, ℤ, pos, negsuc, length,
}
use lux_mon.Protocol.Bytes.{Bytes}
use lux_mon.Protocol.Frame.{
  LuxFrame, Str, is_read_hold, modbus_read_hold, modbus_write_single, modbus_write_multi,
}
use lux_mon.Protocol.Build.{build_read_request, build_write_request, build_write_multi_request}
use lux_mon.Automation.Link.{Link}

-- The message of a result, with what its text says.
pub data Message : Type 0 where
  no_response : Message
  modbus_error : ℕ → Message
  wrote : ℕ → ℤ → Message
  wrote_registers : ℕ → ℕ → Message
  accepted : List ℕ → Message
  accepted_count : ℕ → Message
  read_back : ℕ → ℕ → Message

-- Calls in sequence over the connection's state; an exception ends it.
abbrev pub and_then {ℓ} :
    {S A : Type 0} {B : Type ℓ} → S × Outcome A → (S → A → S × Outcome B) → S × Outcome B
and_then (s, raised e) next = (s, raised e)
and_then (s, ok a) next = next s a

-- The nested `match` functions.
abbrev pub write_match : ℕ → LuxFrame → Bool
write_match register f =
    f.is_error || (f.device_function == modbus_write_single && f.register == register)

abbrev pub write_multi_match : ℕ → LuxFrame → Bool
write_multi_match start_register f =
    f.is_error || (f.device_function == modbus_write_multi && f.register == start_register)

abbrev pub read_match : ℕ → LuxFrame → Bool
read_match register f =
    f.is_error || (is_read_hold f && f.register == register && not (length f.values == 0))

-- `frame.values and frame.values[0] == value`
abbrev pub echoes : List ℕ → ℤ → Bool
echoes [] value = false
echoes (v ∷ vs) (pos n) = v == n
echoes (v ∷ vs) (negsuc n) = false

unfoldable pub write_reply : ℕ → ℤ → Option LuxFrame → Bool × Message
write_reply register value none = (false, no_response)
write_reply register value (some f) =
    if f.is_error
    then (false, modbus_error f.error_code)
    else if echoes f.values value
    then (true, wrote register value)
    else (true, accepted f.values)

unfoldable pub write_multi_reply : ℕ → ℕ → Option LuxFrame → Bool × Message
write_multi_reply start_register count none = (false, no_response)
write_multi_reply start_register count (some f) =
    if f.is_error
    then (false, modbus_error f.error_code)
    else if f.write_count == count
    then (true, wrote_registers count start_register)
    else (true, accepted_count f.write_count)

-- `frame.values[0]`
abbrev pub first_value : ℕ → List ℕ → Outcome (Bool × Option ℕ × Message)
first_value register [] = raised index_error
first_value register (v ∷ vs) = ok (true, some v, read_back register v)

unfoldable pub read_reply : ℕ → Option LuxFrame → Outcome (Bool × Option ℕ × Message)
read_reply register none = ok (false, none, no_response)
read_reply register (some f) =
    if f.is_error
    then ok (false, none, modbus_error f.error_code)
    else first_value register f.values

module _ {S : Type 0} (link : Link S) (datalog_serial inverter_serial : Str) where
  unfoldable pub write_holding_register : ℕ → ℤ → S → S × Outcome (Bool × Message)
  write_holding_register register value s =
      and_then (s, build_write_request datalog_serial inverter_serial register value)
        (λ s req.
          and_then (link.transact req (write_match register) s)
            (λ s frame. (s, ok (write_reply register value frame))))

  unfoldable pub write_holding_registers : ℕ → List ℤ → S → S × Outcome (Bool × Message)
  write_holding_registers start_register values s =
      and_then (s, build_write_multi_request datalog_serial inverter_serial start_register values)
        (λ s req.
          and_then (link.transact req (write_multi_match start_register) s)
            (λ s frame. (s, ok (write_multi_reply start_register (length values) frame))))

  unfoldable pub read_holding_register : ℕ → S → S × Outcome (Bool × Option ℕ × Message)
  read_holding_register register s =
      and_then (s, build_read_request datalog_serial inverter_serial modbus_read_hold register 1)
        (λ s req.
          and_then (link.transact req (read_match register) s)
            (λ s frame. (s, read_reply register frame)))
