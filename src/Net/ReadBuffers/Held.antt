-- ===== src/Net/ReadBuffers/Held.antt =====
-- When the read side of a connection is well formed.
use libiak.Prelude.{◌<◌, ◌≡◌, ◌^◌, length}
use libiak.Net.Buffer.Chain.{held, IsChain}
use libiak.Net.ReadBuffers.{ReadBuffers}

-- The byte count kept by the connection is the number of bytes held; it fits in 32 bits, so that
-- the casts of a request to uint32_t keep it.
pub record IsReadable (r : ReadBuffers) : Type 0 where
  pub chain : IsChain r.front r.tail
  pub sized : r.size ≡ length (held r.front r.tail)
  pub small : r.size < 2 ^ 32
