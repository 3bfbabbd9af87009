-- ===== src/Pake/Runs.antt =====
-- Two sides of pake.go over the toy cryptography.
use tp.Prelude.{◌≡◌, [], ◌∷◌}
use tp.Pake.Side.{new_pake_side, finish}
use tp.Pake.Agreement.{finish-agrees, key_of}
use tp.Pake.Toy.{toy}

finish-agrees_example :
    key_of toy (
      finish toy (new_pake_side toy (1 ∷ []) [] [] 5) (new_pake_side toy (1 ∷ []) [] [] 7).share [])
    ≡ key_of toy (
        finish toy
          (new_pake_side toy (1 ∷ []) [] [] 7)
          (new_pake_side toy (1 ∷ []) [] [] 5).share
          [])
finish-agrees_example = finish-agrees toy (1 ∷ []) [] [] 5 7
