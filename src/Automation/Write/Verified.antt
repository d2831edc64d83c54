-- ===== src/Automation/Write/Verified.antt =====
-- What a log entry of `_do_write` can be trusted for.
use Prim.Native.String.{String}
use lux_mon.Base.{
  ℕ, zero, suc, ◌≡◌, subst, refl, Bool, true, false, Option, none, some, if◌then◌else◌, Outcome, ok,
  raised, ℤ, Bool-cases, inl, inr,
}
use lux_mon.Base.Dict.{lookup}
use lux_mon.Holding.Meta.{HoldingMeta}
use lux_mon.Holding.{holding_registers, holding_by_name}
use lux_mon.Capabilities.Filter.{filter_holding_registers}
use lux_mon.Engineering.{Quantity, clamp_to_register, engineering_to_raw}
use lux_mon.Protocol.Frame.{Str}
use lux_mon.Automation.Link.{Link}
use lux_mon.Automation.Primitives.{Message, and_then, write_holding_register, read_holding_register}
use lux_mon.Automation.Write.{
  Entry, entry, Note, reply, reads_back, register_of, verify, confirm, write_through, compare_write,
  convert_write, supported_write, addressed_write, named_write, do_write,
}

module _ {S : Type 0} (link : Link S) (datalog_serial inverter_serial : Str) where
  -- The last call on the connection was a read of the register at `address`, and it returned `raw`.
  abbrev pub Confirmed : ℕ → S → ℤ → Type 0
  Confirmed address s raw =
      (before : S) × (r : Bool × Option ℕ × Message) × (read_holding_register link datalog_serial
          inverter_serial address before
        ≡ (s, ok r))
      × (reads_back r raw ≡ true)

  -- A write of this raw value to the register at `address` was accepted.
  abbrev pub Written : ℕ → ℤ → Type 0
  Written address raw =
      (before : S) × (after : S) × (msg : Message) × (write_holding_register link datalog_serial
          inverter_serial address raw before
        ≡ (after, ok (true, msg)))

  -- A logged success of a write to this register names the raw value, which was written there and
  -- confirmed by the read-back.
  abbrev pub SoundAt : ℕ → ℤ → S × Outcome (Option Entry) → Type 0
  SoundAt address raw (s, raised e) = Unit {0}
  SoundAt address raw (s, ok none) = Unit {0}
  SoundAt address raw (s, ok (some e)) =
      e.success ≡ true → (e.raw_value ≡ some raw) × Written address raw × Confirmed address s raw

  -- What a setting and a value stand for: the register that the setting is mapped to and that the
  -- model has, and the raw form of the value, clamped to the register's bounds.
  abbrev pub Target : String → String → Quantity → ℕ → ℤ → Type 0
  Target model setting_name value address raw =
      (name : String) × (info : HoldingMeta) × (register_of setting_name ≡ some name)
      × (holding_by_name name ≡ some address)
      × (lookup address (filter_holding_registers holding_registers model) ≡ some info)
      × (engineering_to_raw (clamp_to_register value info) info ≡ some raw)

  abbrev pub Sound : String → String → Quantity → S × Outcome (Option Entry) → Type 0
  Sound model setting_name value (s, raised e) = Unit {0}
  Sound model setting_name value (s, ok none) = Unit {0}
  Sound model setting_name value (s, ok (some e)) =
      e.success ≡ true
      → (address : ℕ) × (raw : ℤ) × Target model setting_name value address raw
        × (e.raw_value ≡ some raw)
        × Written address raw
        × Confirmed address s raw

  pub verify-Confirmed :
      (address : ℕ) (raw : ℤ) (tries : ℕ) (s : S)
      → (verify link datalog_serial inverter_serial address raw tries s).1 ≡ ok true
      → Confirmed address (verify link datalog_serial inverter_serial address raw tries s).0 raw
  unfolding verify
  verify-Confirmed address raw zero s e = cc
  verify-Confirmed address raw (suc tries) s e =
      tried (read_holding_register link datalog_serial inverter_serial address s) refl
        (λ s'. verify-Confirmed address raw tries s') e
    where
      again : S → Bool × Option ℕ × Message → S × Outcome Bool
      again s r =
          if reads_back r raw
          then (s, ok true)
          else verify link datalog_serial inverter_serial address raw tries s

      tried :
          (x : S × Outcome (Bool × Option ℕ × Message))
          → read_holding_register link datalog_serial inverter_serial address s ≡ x
          → ((s' : S)
              → (verify link datalog_serial inverter_serial address raw tries s').1 ≡ ok true
              → Confirmed address
                  (verify link datalog_serial inverter_serial address raw tries s').0
                  raw)
          → (and_then x again).1 ≡ ok true
          → Confirmed address (and_then x again).0 raw
      tried (s', raised x) p ih e = cc
      tried (s', ok r) p ih e = elim (Bool-cases (reads_back r raw)) [
        | inl t ↦ rw t (s, r, p, t)
        | inr t ↦ rw t (ih s' (rw t at e))
      ]

  confirm-SoundAt :
      (address : ℕ) (raw : ℤ) (clamped : Quantity) (msg : Message) (s : S)
      → Written address raw
      → SoundAt address raw (confirm link datalog_serial inverter_serial address raw clamped msg s)
  unfolding confirm
  confirm-SoundAt address raw clamped msg s w =
      ended (verify link datalog_serial inverter_serial address raw 4 s)
        (verify-Confirmed address raw 4 s)
    where
      ended :
          (x : S × Outcome Bool)
          → (x.1 ≡ ok true → Confirmed address x.0 raw)
          → SoundAt address raw (
              and_then x (λ s verified. (
                s,
                ok (
                    some (
                      if verified
                      then entry (some raw) clamped false true (reply msg)
                      else entry (some raw) clamped false false Note.not_confirmed)),
              )))
      ended (s', raised x) h = tt
      ended (s', ok true) h = λ e. (refl, w, h refl)
      ended (s', ok false) h = λ e. cc

  write_through-SoundAt :
      (address : ℕ) (raw : ℤ) (clamped : Quantity) (s : S)
      → SoundAt address raw
          (write_through link datalog_serial inverter_serial address raw clamped s)
  unfolding write_through
  write_through-SoundAt address raw clamped s =
      written (write_holding_register link datalog_serial inverter_serial address raw s) refl
    where
      written :
          (x : S × Outcome (Bool × Message))
          → write_holding_register link datalog_serial inverter_serial address raw s ≡ x
          → SoundAt address raw (
              and_then x (λ s (wrote, msg).
                if wrote
                then confirm link datalog_serial inverter_serial address raw clamped msg s
                else (s, ok (some (entry (some raw) clamped false false (reply msg))))))
      written (s', raised x) p = tt
      written (s', ok (true, msg)) p = confirm-SoundAt address raw clamped msg s' (s, s', msg, p)
      written (s', ok (false, msg)) p = λ e. cc

  compare_write-SoundAt :
      (address : ℕ) (raw : ℤ) (clamped : Quantity) (s : S)
      → SoundAt address raw
          (compare_write link datalog_serial inverter_serial address raw clamped s)
  unfolding compare_write
  compare_write-SoundAt address raw clamped s =
      compared (read_holding_register link datalog_serial inverter_serial address s)
    where
      chosen :
          (b : Bool) (s : S)
          → SoundAt address raw (
              if b
              then (s, ok none)
              else write_through link datalog_serial inverter_serial address raw clamped s)
      chosen true s = tt
      chosen false s = write_through-SoundAt address raw clamped s

      compared :
          (x : S × Outcome (Bool × Option ℕ × Message))
          → SoundAt address raw (
              and_then x (λ s current.
                if reads_back current raw
                then (s, ok none)
                else write_through link datalog_serial inverter_serial address raw clamped s))
      compared (s', raised x) = tt
      compared (s', ok r) = chosen (reads_back r raw) s'

  SoundAt-Sound :
      (model setting_name : String) (value : Quantity) (address : ℕ) (raw : ℤ)
      → Target model setting_name value address raw
      → (x : S × Outcome (Option Entry)) → SoundAt address raw x
      → Sound model setting_name value x
  SoundAt-Sound model setting_name value address raw t (s, raised e) h = tt
  SoundAt-Sound model setting_name value address raw t (s, ok none) h = tt
  SoundAt-Sound model setting_name value address raw t (s, ok (some e)) h =
      λ success. let (r, w, c) = h success in (address, raw, t, r, w, c)

  do_write-Sound :
      (model setting_name : String) (value : Quantity) (s : S)
      → Sound model setting_name value
          (do_write link datalog_serial inverter_serial model setting_name value false s)
  unfolding do_write named_write addressed_write supported_write convert_write
  do_write-Sound model setting_name value s = named (register_of setting_name) refl
    where
      converted :
          (name : String) (address : ℕ) (info : HoldingMeta)
          → register_of setting_name ≡ some name
          → holding_by_name name ≡ some address
          → lookup address (filter_holding_registers holding_registers model) ≡ some info
          → (o : Option ℤ) → engineering_to_raw (clamp_to_register value info) info ≡ o
          → Sound model setting_name value
              (convert_write link datalog_serial inverter_serial address info value o false s)
      converted name address info p q r none t = λ e. cc
      converted name address info p q r (some raw) t =
          SoundAt-Sound model setting_name value address raw (name, info, p, q, r, t) _
            (compare_write-SoundAt address raw (clamp_to_register value info) s)

      supported :
          (name : String) (address : ℕ)
          → register_of setting_name ≡ some name
          → holding_by_name name ≡ some address
          → (o : Option HoldingMeta)
          → lookup address (filter_holding_registers holding_registers model) ≡ o
          → Sound model setting_name value
              (supported_write link datalog_serial inverter_serial address o value false s)
      supported name address p q none r = λ e. cc
      supported name address p q (some info) r =
          converted name address info p q r (engineering_to_raw (clamp_to_register value info) info)
            refl

      addressed :
          (name : String)
          → register_of setting_name ≡ some name
          → (o : Option ℕ) → holding_by_name name ≡ o
          → Sound model setting_name value
              (addressed_write link datalog_serial inverter_serial o model value false s)
      addressed name p none q = λ e. cc
      addressed name p (some address) q =
          supported name address p q
            (lookup address (filter_holding_registers holding_registers model)) refl

      named :
          (o : Option String)
          → register_of setting_name ≡ o
          → Sound model setting_name value
              (named_write link datalog_serial inverter_serial o model value false s)
      named none p = λ e. cc
      named (some name) p = addressed name p (holding_by_name name) refl

  -- Outside a dry run, a write that `_do_write` logs as a success went to the register that the
  -- setting is mapped to and that the model has: the raw form of the value, clamped to the register's
  -- bounds, was written there in a write that was accepted, the entry names it, and the last call
  -- read the same register and got that very value.
  pub do_write-Confirmed :
      (model setting_name : String) (value : Quantity) (s s' : S) (e : Entry)
      → do_write link datalog_serial inverter_serial model setting_name value false s
        ≡ (s', ok (some e))
      → e.success ≡ true
      → (address : ℕ) × (raw : ℤ) × Target model setting_name value address raw
        × (e.raw_value ≡ some raw)
        × Written address raw
        × Confirmed address s' raw
  do_write-Confirmed model setting_name value s s' e h =
      subst (Sound model setting_name value) h (do_write-Sound model setting_name value s)

  -- A dry run neither reads nor writes a register: it leaves the connection as it is and raises
  -- nothing.
  pub do_write-dry_run :
      (model setting_name : String) (value : Quantity) (s : S)
      → (e : Entry) × (do_write link datalog_serial inverter_serial model setting_name value true s
          ≡ (s, ok (some e)))
        × (e.dry_run ≡ true)
  unfolding do_write named_write addressed_write supported_write convert_write
  do_write-dry_run model setting_name value s = named (register_of setting_name)
    where
      Dry : S × Outcome (Option Entry) → Type 0
      Dry x = (e : Entry) × (x ≡ (s, ok (some e))) × (e.dry_run ≡ true)

      converted :
          (address : ℕ) (info : HoldingMeta) (o : Option ℤ)
          → Dry (convert_write link datalog_serial inverter_serial address info value o true s)
      converted address info none = (_, refl, refl)
      converted address info (some raw) = (_, refl, refl)

      supported :
          (address : ℕ) (o : Option HoldingMeta)
          → Dry (supported_write link datalog_serial inverter_serial address o value true s)
      supported address none = (_, refl, refl)
      supported address (some info) =
          converted address info (engineering_to_raw (clamp_to_register value info) info)

      addressed :
          (o : Option ℕ)
          → Dry (addressed_write link datalog_serial inverter_serial o model value true s)
      addressed none = (_, refl, refl)
      addressed (some address) =
          supported address (lookup address (filter_holding_registers holding_registers model))

      named :
          (o : Option String)
          → Dry (named_write link datalog_serial inverter_serial o model value true s)
      named none = (_, refl, refl)
      named (some name) = addressed (holding_by_name name)
