-- ===== src/Stream/Packets.antt =====
-- packetdecoder.go and packetencoder.go: JSON values in packets.
pub mod Laws
use jsonrpc.Base.{
  ℕ, zero, suc, ℤ, pos, is_positive, Bool, true, false, Option, none, some, List, [], ◌∷◌, ◌++◌,
  Bytes, if◌then◌else◌,
}
use jsonrpc.Failure.{GoError, Outcome, ok, fail, errors_join}
use jsonrpc.Stream.{
  Event, with_timeout, with_cancel, clear_deadline, past_deadline, Interruption, derive,
}
use jsonrpc.Stream.Decoder.{amount}

-- DefaultPacketBufferSize
abbrev pub default_packet_buffer_size : ℕ
default_packet_buffer_size = 65507

-- A net.PacketConn with its state: ReadFrom into a buffer of a given length leaves the bytes read, the
-- sender's address, and an error; WriteTo leaves an error.
pub record PacketConn {ℓ} (S : Type ℓ) : Type ℓ where
  pub read_from : S → ℕ → S × Bytes × Option Bytes × Option GoError
  pub write_to : S → Bytes → Option Bytes → S × Option GoError

-- PacketConnDecoder. The connection is an argument of its methods.
pub record PacketConnDecoder : Type 0 where
  pub n : ℤ
  pub t : ℤ

-- NewPacketConnDecoder
unfoldable pub new_packet_conn_decoder : PacketConnDecoder
new_packet_conn_decoder = record { n = pos 0; t = pos 0 }

-- SetLimit
unfoldable pub set_limit : ℤ → PacketConnDecoder → PacketConnDecoder
set_limit n i = record i { n = n }

-- SetIdleTimeout
unfoldable pub set_idle_timeout : ℤ → PacketConnDecoder → PacketConnDecoder
set_idle_timeout t i = record i { t = t }

-- The length of the buffer.
unfoldable pub read_size : PacketConnDecoder → ℕ
read_size i = if is_positive i.n then amount i.n else default_packet_buffer_size

-- What DecodeFrom leaves: the connection, the address, the value written, the error, and the calls.
pub record Received {ℓ κ} (S : Type ℓ) (V : Type κ) : Type (ℓ ⊔ κ) where
  pub conn : S
  pub addr : Option Bytes
  pub target : Option V
  pub err : Option GoError
  pub events : List Event

-- PacketConnEncoder
pub record PacketConnEncoder : Type 0 where
  pub t : ℤ

-- NewPacketConnEncoder
unfoldable pub new_packet_conn_encoder : PacketConnEncoder
new_packet_conn_encoder = record { t = pos 0 }

-- SetIdleTimeout of a PacketConnEncoder.
unfoldable pub set_encoder_idle_timeout : ℤ → PacketConnEncoder → PacketConnEncoder
set_encoder_idle_timeout t i = record i { t = t }

-- What EncodeTo leaves.
pub record Sent {ℓ} (S : Type ℓ) : Type ℓ where
  pub conn : S
  pub err : Option GoError
  pub events : List Event

module _ {ℓ κ} {S : Type ℓ} {V : Type κ} (c : PacketConn S) where
  -- Behind ReadFrom. `unmarshal` leaves the value written and an error.
  after_read :
      (Bytes → Option V × Option GoError)
      → Interruption
      → List Event
      → S × Bytes × Option Bytes × Option GoError
      → Bool
      → Received S V
  unfolding errors_join
  after_read unmarshal i es (s, buf, addr, err) true = record {
    conn = s;
    addr = addr;
    target = none;
    err = errors_join (err ∷ i.ctx_err ∷ []);
    events = es ++ past_deadline ∷ [];
  }
  after_read unmarshal i es (s, buf, addr, some e) false = record {
    conn = s;
    addr = addr;
    target = none;
    err = some e;
    events = es;
  }
  after_read unmarshal i es (s, buf, addr, none) false =
      let (v, err) = unmarshal buf in
      record { conn = s; addr = addr; target = v; err = err; events = es }

  after_clear :
      (Bytes → Option V × Option GoError)
      → Interruption
      → PacketConnDecoder
      → S
      → Option GoError
      → Received S V
  unfolding after_read read_size
  after_clear unmarshal i d s (some e) = record {
    conn = s;
    addr = none;
    target = none;
    err = some e;
    events = derive d.t ∷ clear_deadline ∷ [];
  }
  after_clear unmarshal i d s none =
      after_read unmarshal i (derive d.t ∷ clear_deadline ∷ []) (c.read_from s (read_size d))
        i.fired

  -- DecodeFrom
  unfoldable pub decode_from :
      (Bytes → Option V × Option GoError) → Interruption → PacketConnDecoder → S → Received S V
  unfolding after_clear
  decode_from unmarshal i d s = after_clear unmarshal i d s i.reset

-- Behind WriteTo.
after_write {ℓ} : {S : Type ℓ} → Interruption → List Event → S × Option GoError → Bool → Sent S
unfolding errors_join
after_write i es (s, err) true = record {
  conn = s;
  err = errors_join (err ∷ i.ctx_err ∷ []);
  events = es ++ past_deadline ∷ [];
}
after_write i es (s, err) false = record { conn = s; err = err; events = es }

module _ {ℓ} {S : Type ℓ} (c : PacketConn S) where
  after_marshal :
      Interruption → PacketConnEncoder → S → Option Bytes → Outcome Bytes → Option GoError → Sent S
  unfolding after_write
  after_marshal i e s addr (fail err) reset = record {
    conn = s;
    err = some err;
    events = derive e.t ∷ [];
  }
  after_marshal i e s addr (ok buf) (some err) = record {
    conn = s;
    err = some err;
    events = derive e.t ∷ clear_deadline ∷ [];
  }
  after_marshal i e s addr (ok buf) none =
      after_write i (derive e.t ∷ clear_deadline ∷ []) (c.write_to s buf addr) i.fired

  -- EncodeTo
  unfoldable pub encode_to {κ} :
      {V : Type κ}
      → (V → Outcome Bytes)
      → Interruption
      → PacketConnEncoder
      → S
      → V
      → Option Bytes
      → Sent S
  unfolding after_marshal
  encode_to marshal i e s v addr = after_marshal i e s addr (marshal v) i.reset
