-- ===== src/Agent/Encoders.antt =====
-- internal/agent/agent.go: batchEncoder, its pool, and the bodies of requests that alias its buffer, over
-- the calls of sendBatch that run beside each other.
pub mod Owned
pub mod Steps
pub mod Exclusive
use svcmetrics.Base.{
  ℕ, suc, ◌+◌, Option, none, some, List, [], ◌∷◌, ◌++◌, length, take, drop, if◌then◌else◌, ◌==◌,
}
use svcmetrics.Pool.{get, put, remove_at}

-- bytes.Buffer: the memory behind it and how much of it is in use. A byte is a number.
pub record Buffer : Type 0 where
  pub memory : List ℕ
  pub len : ℕ

abbrev pub new_buffer : Buffer
new_buffer = record { memory = []; len = 0 }

-- buf.Write, in place: what a later reader of the memory sees where it has room.
unfoldable pub buffer_write : List ℕ → Buffer → Buffer
buffer_write p b = record {
  memory = take b.len b.memory ++ (p ++ drop (b.len + length p) b.memory);
  len = b.len + length p;
}

-- buf.Reset: the memory stays.
unfoldable pub buffer_reset : Buffer → Buffer
buffer_reset b = record b { len = 0 }

-- A call of sendBatch with the address of its encoder, what its compressor has put out, and the length
-- of the body once it has a request.
pub record Sender : Type 0 where
  pub encoder : ℕ
  pub output : List ℕ
  pub body : Option ℕ

-- The buffers by the address of their encoder, of which those below `next` are in use; the pool holds
-- addresses, and a call has a number.
pub record Heap : Type 0 where
  pub buffer : ℕ → Buffer
  pub next : ℕ
  pub pool : List ℕ
  pub senders : ℕ → Option Sender

abbrev pub empty_heap : Heap
empty_heap = record { buffer = λ _. new_buffer; next = 0; pool = []; senders = λ _. none }

abbrev pub at : {A : Type 0} → ℕ → A → (ℕ → A) → ℕ → A
at k x f j = if k == j then x else f j

-- Reset of an encoder acts on its buffer; its address stays.
abbrev pub same : ℕ → ℕ
same a = a

pub data Action : Type 0 where
  -- batchEncoderPool.Get(), where the pool picks this one
  getting : ℕ → ℕ → Action
  -- the compressor writes to the buffer
  writing : ℕ → List ℕ → Action
  -- enc.buf.Bytes() behind the Close of the compressor, and the request
  requesting : ℕ → Action
  -- the deferred batchEncoderPool.Put(enc)
  putting : ℕ → Action
  -- the runtime drops one of the pool
  dropping : ℕ → Action

abbrev pub next_of : ℕ → ℕ → ℕ
next_of a next = if a == next then suc next else next

-- The new call has the encoder for its own.
unfoldable pub get_encoder : ℕ → Option Sender → ℕ → Heap → Heap
unfolding get
get_encoder k (some _) pick h = h
get_encoder k none pick h =
    let (a, pool) = get same h.next pick h.pool in
    record h {
      next = next_of a h.next;
      pool = pool;
      senders = at k (some (record { encoder = a; output = []; body = none })) h.senders;
    }

unfoldable pub write_encoder : ℕ → List ℕ → Option Sender → Heap → Heap
unfolding buffer_write
write_encoder k p none h = h
write_encoder k p (some s) h = elim s.body [
  | some _ ↦ h
  | none ↦ record h {
    buffer = at s.encoder (buffer_write p (h.buffer s.encoder)) h.buffer;
    senders = at k (some (record s { output = s.output ++ p })) h.senders;
  }
]

unfoldable pub request_body : ℕ → Option Sender → Heap → Heap
request_body k none h = h
request_body k (some s) h = elim s.body [
  | some _ ↦ h
  | none ↦ record h {
    senders = at k (some (record s { body = some (h.buffer s.encoder).len })) h.senders;
  }
]

unfoldable pub put_encoder : ℕ → Option Sender → Heap → Heap
unfolding put buffer_reset
put_encoder k none h = h
put_encoder k (some s) h = record h {
  buffer = at s.encoder (buffer_reset (h.buffer s.encoder)) h.buffer;
  pool = put same h.next s.encoder h.pool;
  senders = at k none h.senders;
}

unfoldable pub act : Action → Heap → Heap
unfolding get_encoder write_encoder request_body put_encoder remove_at
act (getting k pick) h = get_encoder k (h.senders k) pick h
act (writing k p) h = write_encoder k p (h.senders k) h
act (requesting k) h = request_body k (h.senders k) h
act (putting k) h = put_encoder k (h.senders k) h
act (dropping n) h = record h { pool = remove_at same h.next n h.pool }

unfoldable pub run : List Action → Heap → Heap
unfolding act
run [] h = h
run (a ∷ rest) h = run rest (act a h)

-- What a reader of a body of this length sees, whose encoder has this address.
unfoldable pub read_body : ℕ → ℕ → Heap → List ℕ
read_body a n h = take n (h.buffer a).memory
