-- ===== src/Ipc/Client/Sample.antt =====
-- The segment of 384 bytes 0, and the operations of `float` in `Sample`.
use neuro_kinetic.Base.{false, true, ◌==◌, if◌then◌else◌, replicate}
use neuro_kinetic.Base.Text.{Bytes}
use neuro_kinetic.Double.{Double}
use neuro_kinetic.Double.Micro.{Micro, micro_double}
use neuro_kinetic.Kernel.{LdltSolve}
use neuro_kinetic.Daemon.{Casts}
use neuro_kinetic.Ipc.Client.{PythonFloats}
use neuro_kinetic.Recorder.Bytes.Sample.{Sample, nought, third, one}

abbrev pub empty : Bytes
empty = replicate 384 0

-- Of the operations a command meets the literals alone.
instance abbrev pub sample_double : Double Sample
sample_double = record {
  add = λ x y. x;
  sub = λ x y. x;
  mul = λ x y. x;
  div = λ x y. x;
  neg = λ x. x;
  abs = λ x. x;
  sqrt = λ x. x;
  lt = λ x y. false;
  le = λ x y. true;
  is_finite = λ x. true;
  decimal = λ m e. if m == 0 then nought else third;
}

abbrev pub widen : Sample → Micro
widen nought = micro_double.decimal 0 0
widen third = micro_double.decimal 33 2
widen one = micro_double.decimal 1 0

abbrev pub narrow : Casts Micro Sample
narrow = record {
  to_float = λ x. if micro_double.lt x (micro_double.decimal 5 1) then nought else one;
  of_float = widen;
}

abbrev pub divide : LdltSolve Micro
divide n m rhs i = micro_double.div (rhs i) (m i i)

-- A Python float in millionths, of which those above 1000 are too large.
abbrev pub python : PythonFloats Micro Sample
python = record {
  to_float = narrow.to_float;
  overflows = λ x. micro_double.lt (micro_double.decimal 1000 0) x;
}
