-- ===== src/Comm/Active/Answers.antt =====
-- What the polling emits, and that it goes through the batches.
use native.Mathlib.Nat.{mod-lt}
use lux_mon.Base.{
  ℕ, zero, suc, ◌+◌, ◌%◌, ◌≤◌, ◌<◌, ◌≡◌, refl, ap, List, ◌∷◌, Bool, true, false, Option, none, some,
  if◌then◌else◌, length, get_elem?, All, Outcome, ok, raised, arith,
}
use lux_mon.Protocol.Bytes.{Bytes}
use lux_mon.Protocol.Frame.{LuxFrame, modbus_read_input}
use lux_mon.Automation.Link.{Link}
use lux_mon.Automation.Primitives.{and_then}
use lux_mon.Comm.Active.{
  Batch, batch_match, Poller, count_answer, after_transact, round_with, poll_round, poll_rounds,
}

-- The batch of this start is one of them.
abbrev pub Starts : ℕ → List Batch → Type 0
Starts start batches = (i : ℕ) × (count : ℕ) × (get_elem? batches i ≡ some (start, count))

-- The frame answers a read of the input registers of one of the batches.
abbrev pub AnswersBatch : List Batch → LuxFrame → Type 0
AnswersBatch batches f =
    (f.is_error ≡ false) × (f.device_function ≡ modbus_read_input) × Starts f.register batches

-- The next batch is there, every frame emitted answers a batch, and the counts count.
pub record Polled {S : Type 0} (batches : List Batch) (p : Poller S) : Type 0 where
  pub index : p.batch_idx < length batches
  pub answers : All (AnswersBatch batches) p.emitted
  pub received : p.frames_received ≡ length p.emitted
  pub polled : p.frames_received ≤ p.poll_requests

matched_answer :
    (start : ℕ) (f : LuxFrame)
    → batch_match start f ≡ true
    → f.is_error ≡ false
    → (f.device_function ≡ modbus_read_input) × (f.register ≡ start)
matched_answer start f m e = (ground arith, ground arith)

module _ {S : Type 0} (link : Link S) where
  count_answer-Polled :
      (batches : List Batch) (i start count : ℕ) (answer : Option LuxFrame) (p : Poller S)
      → get_elem? batches i ≡ some (start, count)
      → ((f : LuxFrame) → answer ≡ some f → batch_match start f ≡ true)
      → Polled batches p
      → Polled batches (count_answer link answer p)
  count_answer-Polled batches i start count none p e m h = h
  count_answer-Polled batches i start count (some f) p e m h = counted f.is_error refl
    where
      counted :
          (b : Bool)
          → f.is_error ≡ b
          → Polled batches (
              if b then record p { poll_requests = p.poll_requests + 1 } else record p {
                poll_requests = p.poll_requests + 1;
                frames_received = p.frames_received + 1;
                emitted = f ∷ p.emitted;
              })
      counted true t = record {
        index = h.index;
        answers = h.answers;
        received = h.received;
        polled = omega (arith, h.polled);
      }
      counted false t =
          let (fn, reg) = matched_answer start f (m f refl) t in
          record {
            index = h.index;
            answers = ((t, fn, (i, count, rw reg e)), h.answers);
            received = omega (arith, h.received);
            polled = omega (arith, h.polled);
          }

  after_transact-Polled :
      (batches : List Batch) (i start count : ℕ) (p : Poller S) (a : S × Outcome (Option LuxFrame))
      → get_elem? batches i ≡ some (start, count)
      → ((f : LuxFrame) → a.1 ≡ ok (some f) → batch_match start f ≡ true)
      → Polled batches p
      → Polled batches (after_transact link (length batches) p a).0
  after_transact-Polled batches i start count p (s, raised e) g m h = record {
    index = h.index;
    answers = h.answers;
    received = h.received;
    polled = h.polled;
  }
  after_transact-Polled batches i start count p (s, ok answer) g m h =
      let q =
        count_answer-Polled batches i start count answer (record p { conn = s }) g
          (λ f e. m f (ap ok e))
          (record {
            index = h.index;
            answers = h.answers;
            received = h.received;
            polled = h.polled;
          }) in
      record {
        index = next_index _ (length batches) (q.index);
        answers = q.answers;
        received = q.received;
        polled = q.polled;
      }
    where
      next_index : (n total : ℕ) → n < total → (n + 1) % total < total
      next_index n total h = mod-lt (n + 1) (omega (arith, h))

  poll_round-Polled :
      (requests : List Bytes) (batches : List Batch) (p : Poller S)
      → Polled batches p
      → Polled batches (poll_round link requests batches p).0
  unfolding poll_round
  poll_round-Polled requests batches p h =
      turned (get_elem? requests p.batch_idx) (get_elem? batches p.batch_idx) refl
    where
      turned :
          (request : Option Bytes) (batch : Option Batch)
          → get_elem? batches p.batch_idx ≡ batch
          → Polled batches (round_with link (length batches) request batch p).0
      turned none batch e = h
      turned (some request) none e = h
      turned (some request) (some (start, count)) e =
          after_transact-Polled batches p.batch_idx start count p
            (link.transact request (batch_match start) p.conn) e
            (link.matched request (batch_match start) p.conn) h

  -- If the following holds before, then it holds after any number of rounds of the polling, however
  -- the connection answers: the next batch is one of the batches, each frame that was emitted is no
  -- error and answers a read of the input registers from the start of one of the batches, the frames
  -- received are the frames emitted, and no more than the polls that were answered.
  pub poll_rounds-Polled :
      (n : ℕ) (requests : List Bytes) (batches : List Batch) (p : Poller S)
      → Polled batches p
      → Polled batches (poll_rounds link n requests batches p).0
  unfolding poll_rounds
  poll_rounds-Polled zero requests batches p h = h
  poll_rounds-Polled (suc n) requests batches p h =
      rest (poll_round link requests batches p) (poll_round-Polled requests batches p h)
        (λ q k. poll_rounds-Polled n requests batches q k)
    where
      rest :
          (r : Poller S × Outcome (Unit {0}))
          → Polled batches r.0
          → ((q : Poller S)
              → Polled batches q
              → Polled batches (poll_rounds link n requests batches q).0)
          → Polled batches (and_then r (λ q u. poll_rounds link n requests batches q)).0
      rest (q, raised e) k later = k
      rest (q, ok u) k later = later q k
