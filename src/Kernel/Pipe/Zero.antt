-- ===== src/Kernel/Pipe/Zero.antt =====
-- Calls that ask for no bytes.
use kernelpanic.Common.{◌-◌, ◌^◌, ◌≤◌, min, ◌≡◌, arith, length, drop, length-drop}
use kernelpanic.Utils.RingBuffer.Contents.{IsValid, count}
use kernelpanic.Utils.RingBuffer.Read.{read-ReadPrefix}
use kernelpanic.Utils.RingBuffer.Write.{write-WriteSuffix}
use kernelpanic.Kernel.Pipe.{Pipe, Call, panics, read_ring, write_ring}

-- On a valid ring a call that asks for no bytes fails an ASSERT in the ring, whatever the pipe's
-- state: reads and writes both.
pub zero_size_panics :
    (c : Call) (p : Pipe)
    → IsValid p.ring
    → c.done ≡ c.size
    → length c.buff ≤ 2 ^ 62
    → (read_ring c p ≡ panics) × (write_ring c p ≡ panics)
unfolding read_ring write_ring
zero_size_panics c p v z small =
    let none_left : c.size - c.done ≡ 0 = omega arith in
    let (r', is) = read-ReadPrefix (c.size - c.done) p.ring v (omega arith) in
    let (w', iw) =
      write-WriteSuffix (drop c.done c.buff) (c.size - c.done) p.ring v (omega arith)
        (omega (arith, length-drop c.done c.buff)) in
    let n_zero : min (c.size - c.done) (count p.ring) ≡ 0 = omega arith in
    let m_zero : min (c.size - c.done) (p.ring.size - count p.ring) ≡ 0 = omega arith in
    (rw is.returns (rw n_zero (ground arith)), rw iw.returns (rw m_zero (ground arith)))
