-- ===== src/Kernel/Socket.antt =====
-- kernel/socket.c: two pipes between two handles. A call on a handle is the call of
-- kernel/pipe.c on one of its pipes, which goes on as Kernel/Pipe.antt has it.
use kernelpanic.Common.{ℕ, ◌≡◌, refl, ◌≢◌, true, false, List, []}
use kernelpanic.Kernel.Pipe
use kernelpanic.Kernel.Pipe.{Pipe, down_side, reading, writing, Pc}

-- `struct SOCKET`
pub record Socket : Type 0 where
  pub pipe1 : Pipe
  pub pipe2 : Pipe

-- The pipes that the pointers of a handle can lead to.
pub data End : Type 0 where
  pipe1 pipe2 : End

-- `struct SOCKET_HANDLE`
pub record Handle : Type 0 where
  pub read : End
  pub write : End

-- `SocketInit`: the socket and its two handles.
unfoldable pub init :
    (buff1 : List ℕ) (buff1_size : ℕ) (buff2 : List ℕ) (buff2_size : ℕ) → Socket × Handle × Handle
unfolding Pipe.init
init buff1 buff1_size buff2 buff2_size = (
  record { pipe1 = Pipe.init buff1 buff1_size; pipe2 = Pipe.init buff2 buff2_size },
  record { read = End.pipe1; write = End.pipe2 },
  record { read = End.pipe2; write = End.pipe1 },
)

-- `SocketReadChars`, `SocketReadStruct`: the pipe, and the call that begins on it.
abbrev pub read_chars : (size : ℕ) → Handle → End × Pc
read_chars size h =
    (h.read, reading (record { whole = false; size = size; done = 0; buff = [] }) down_side)

abbrev pub read_struct : (size : ℕ) → Handle → End × Pc
read_struct size h =
    (h.read, reading (record { whole = true; size = size; done = 0; buff = [] }) down_side)

-- `SocketWriteChars`, `SocketWriteStruct`
abbrev pub write_chars : (buff : List ℕ) → (size : ℕ) → Handle → End × Pc
write_chars buff size h =
    (h.write, writing (record { whole = false; size = size; done = 0; buff = buff }) down_side)

abbrev pub write_struct : (buff : List ℕ) → (size : ℕ) → Handle → End × Pc
write_struct buff size h =
    (h.write, writing (record { whole = true; size = size; done = 0; buff = buff }) down_side)

-- The handles are crossed: each reads where the other writes, and no handle from its own.
pub init_crossed :
    (buff1 : List ℕ) (n1 : ℕ) (buff2 : List ℕ) (n2 m k : ℕ) (buff : List ℕ)
    → let (s, h1, h2) = init buff1 n1 buff2 n2 in
      ((read_chars m h1).0 ≡ (write_struct buff k h2).0)
      × ((read_struct m h2).0 ≡ (write_chars buff k h1).0)
      × ((read_chars m h1).0 ≢ (write_chars buff k h1).0)
unfolding init
init_crossed buff1 n1 buff2 n2 m k buff = (refl, refl, λ e. cc)
