-- ===== src/Httpmux.antt =====
-- httpmux/httpmux.go: one port for HTTP and for TLS, told apart by the first bytes of a connection.
pub mod Dispatch
mod Tests
use smart_web.Base.{
  ℕ, suc, Bool, true, false, not, ◌&&◌, ◌||◌, Option, none, some, List, [], ◌∷◌, ◌++◌, Bytes, ltb,
  leb, ◌==◌, take, drop, if◌then◌else◌,
}

-- The end of a read: none for nil, a timeout of the network, or another error.
pub data ReadEnd : Type 0 where
  read_ok timed_out : ReadEnd
  read_error : Bytes → ReadEnd

-- What the client sends, and how the two reads of `DispatchConnection` go: the error of the first
-- if it finds no byte, and how many bytes the second finds at once, and how it ends.
pub record Incoming : Type 0 where
  pub sent : Bytes
  pub first_error : Bytes
  pub ready : ℕ
  pub second_end : ReadEnd

-- `conn`: the buffer of `br` and what the reads have left to `Conn`. Both `Read`, by the MultiReader,
-- and `WriteTo` take the buffer first.
pub record Conn : Type 0 where
  pub buffered : Bytes
  pub unread : Bytes

pub data Dispatched : Type 0 where
  refused : Bytes → Dispatched
  plain tls : Conn → Dispatched

-- the bytes that a connection yields, by `Read` and by `WriteTo` alike
unfoldable pub stream : Conn → Bytes
stream c = c.buffered ++ c.unread

unfoldable pub is_text : ℕ → Bool
is_text c = not (not (c == b'\t') && (ltb c 32 || leb 127 c))

unfoldable pub is_http : Bytes → Bool
is_http [] = true
is_http (c ∷ buf) = is_text c && is_http buf

-- the length of the buffer behind its first byte
abbrev pub burst : ℕ
burst = 255

-- the number of bytes that the second read puts into the buffer
unfoldable pub burst_of : ℕ → ℕ
burst_of ready = if leb ready burst then ready else burst

-- `DispatchConnection` behind its two reads
unfoldable pub choose : ReadEnd → Bytes → Bytes → Dispatched
choose (read_error e) buf rest = refused e
choose read_ok buf rest =
    let c : Conn = record { buffered = buf; unread = rest } in
    if is_http buf then plain c else tls c
choose timed_out buf rest =
    let c : Conn = record { buffered = buf; unread = rest } in
    if is_http buf then plain c else tls c

unfoldable pub dispatch : Incoming → Bytes → Dispatched
dispatch i [] = refused i.first_error
dispatch i (c ∷ rest) =
    choose i.second_end (c ∷ take (burst_of i.ready) rest) (drop (burst_of i.ready) rest)

unfoldable pub dispatch_connection : Incoming → Dispatched
dispatch_connection i = dispatch i i.sent
