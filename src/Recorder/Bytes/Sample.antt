-- ===== src/Recorder/Bytes/Sample.antt =====
-- A concrete `float` for the tests.
use neuro_kinetic.Base.{refl, ◌==◌, if◌then◌else◌, arith}
use neuro_kinetic.Recorder.Bytes.{FloatBits, IsBitCast}

-- Three values of `float`, with their IEEE bit patterns.
pub data Sample : Type 0 where
  nought third one : Sample

abbrev pub sample_bits : FloatBits Sample
sample_bits = record {
  bits = elim [ nought ↦ 0 | third ↦ 0x3ea8f5c3 | one ↦ 0x3f800000 ];
  of_bits = λ w. if w == 0x3ea8f5c3 then third else if w == 0x3f800000 then one else nought;
}

pub sample_bits-IsBitCast : IsBitCast Sample sample_bits
sample_bits-IsBitCast = record {
  bits-lt = elim [ nought ↦ omega arith | third ↦ omega arith | one ↦ omega arith ];
  of_bits-bits = elim [ nought ↦ refl | third ↦ refl | one ↦ refl ];
}
