-- ===== src/Automation/Primitives/Accepted.antt =====
-- What a successful write or read says about the frame that answered it.
use lux_mon.Base.{
  ℕ, ◌≡◌, refl, sym, ap, Bool, true, false, Option, none, some, Outcome, ok, raised, ℤ, arith,
}
use lux_mon.Protocol.Bytes.{Bytes}
use lux_mon.Protocol.Frame.{LuxFrame, Str, modbus_write_single}
use lux_mon.Protocol.Build.{build_write_request}
use lux_mon.Automation.Link.{Link}
use lux_mon.Automation.Primitives.{
  Message, and_then, write_match, write_reply, write_holding_register,
}

-- The frame answers a write of the register: function 6, this register, and no error.
abbrev pub AnswersWrite : ℕ → LuxFrame → Type 0
AnswersWrite register f =
    (f.is_error ≡ false) × (f.device_function ≡ modbus_write_single) × (f.register ≡ register)

abbrev succeeded : Outcome (Bool × Message) → Bool
succeeded (ok (b, msg)) = b
succeeded (raised e) = false

write_reply-true :
    (register : ℕ) (value : ℤ) (f : LuxFrame)
    → (write_reply register value (some f)).0 ≡ true
    → f.is_error ≡ false
unfolding write_reply
write_reply-true register value f h = ground arith

write_match-false :
    (register : ℕ) (f : LuxFrame)
    → f.is_error ≡ false
    → write_match register f ≡ true
    → (f.device_function ≡ modbus_write_single) × (f.register ≡ register)
write_match-false register f e h = (ground arith, ground arith)

module _ {S : Type 0} (link : Link S) (datalog_serial inverter_serial : Str) where
  -- A write that reports success was encoded, sent, and answered by a frame of function 6 for the
  -- register that is no error. Its value need not be the one written.
  pub write_holding_register-true :
      (register : ℕ) (value : ℤ) (s s' : S) (msg : Message)
      → write_holding_register link datalog_serial inverter_serial register value s
        ≡ (s', ok (true, msg))
      → (req : Bytes) × (f : LuxFrame) × (build_write_request datalog_serial inverter_serial
            register value
          ≡ ok req)
        × (link.transact req (write_match register) s ≡ (s', ok (some f)))
        × AnswersWrite register f
  unfolding write_holding_register write_reply
  write_holding_register-true register value s s' msg h =
      built (build_write_request datalog_serial inverter_serial register value) refl h
    where
      Result : Type 0
      Result =
          (req : Bytes) × (f : LuxFrame) × (build_write_request datalog_serial inverter_serial
              register value
            ≡ ok req)
          × (link.transact req (write_match register) s ≡ (s', ok (some f)))
          × AnswersWrite register f

      answered :
          (req : Bytes) (x : S × Outcome (Option LuxFrame))
          → build_write_request datalog_serial inverter_serial register value ≡ ok req
          → link.transact req (write_match register) s ≡ x
          → and_then x (λ s frame. (s, ok (write_reply register value frame)))
            ≡ (s', ok (true, msg))
          → Result
      answered req (t, raised e) b p h = let q : raised e ≡ ok (true, msg) = ap (λ x. x.1) h in cc
      answered req (t, ok none) b p h = let q : false ≡ true = ap (λ x. succeeded x.1) h in cc
      answered req (t, ok (some f)) b p h =
          let fine : f.is_error ≡ false =
            write_reply-true register value f (ap (λ x. succeeded x.1) h) in
          let same : t ≡ s' = ap (λ x. x.0) h in
          let frame : link.transact req (write_match register) s ≡ (s', ok (some f)) =
            rw (sym same) p in
          let (function, address) =
            write_match-false register f fine
              (link.matched req (write_match register) s f (ap (λ x. x.1) p)) in
          (req, f, b, frame, (fine, function, address))

      built :
          (m : Outcome Bytes)
          → build_write_request datalog_serial inverter_serial register value ≡ m
          → and_then
              (s, m)
              (λ s req.
                and_then
                  (link.transact req (write_match register) s)
                  (λ s frame. (s, ok (write_reply register value frame))))
            ≡ (s', ok (true, msg))
          → Result
      built (raised e) b h = let q : raised e ≡ ok (true, msg) = ap (λ x. x.1) h in cc
      built (ok req) b h = answered req (link.transact req (write_match register) s) b refl h
