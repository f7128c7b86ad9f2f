-- ===== src/Tests/Texts.antt =====
-- A string for the runs.
use linux_based_os.Prelude.{arith}
use linux_based_os.Strings.Length.{HasLength}
use linux_based_os.Tests.Files.{letter}

pub letter-HasLength : HasLength (letter 97) 1
letter-HasLength = record { nul = omega arith; before = λ i p. ground arith }
