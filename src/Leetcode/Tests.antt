-- ===== src/Leetcode/Tests.antt =====
-- The exercises of cpp/leetcode on concrete inputs.
use pungoo.Common.{◌+◌, ◌≡◌, refl, ◌==◌, if◌then◌else◌, arith, [], ◌∷◌, done, undefined, Ends}
use pungoo.Leetcode.Battleships.{sweep_rows, count_columns, count_battleships, main}
use pungoo.Leetcode.Battleships.Count.{
  row_ships, cleared_board, all_columns, count_battleships-ships,
}
use pungoo.Clib.Bytes.{lit, decimal}
use pungoo.Common.Int.{pos}
use pungoo.Leetcode.Hamming
use pungoo.Leetcode.Hamming.{hamming_distance, complement}
use pungoo.Leetcode.Hamming.Differing.{differing, sign_bit, hamming_distance-differing}

hamming_distance-differing_example :
    hamming_distance 5 4294967295 + (if sign_bit 5 == sign_bit 4294967295 then 0 else 1)
    ≡ differing 32 5 4294967295
hamming_distance-differing_example =
    hamming_distance-differing 5 4294967295 (omega arith) (omega arith)

hamming_distance_one_four : hamming_distance 1 4 ≡ 2
unfolding hamming_distance
hamming_distance_one_four = refl

-- 0 and -1 differ in 32 bits.
hamming_distance_signs : hamming_distance 0 4294967295 ≡ 31
unfolding hamming_distance
hamming_distance_signs = refl

complement_shown : complement ≡ lit "254"
unfolding complement
complement_shown = refl

count_battleships-ships_example :
    Ends
      (λ n.
        n
        ≡ row_ships (lit "xx.x" ∷ lit "...x" ∷ [])
          + all_columns 4 (cleared_board (lit "xx.x" ∷ lit "...x" ∷ [])) 0)
      (count_battleships (lit "xx.x" ∷ lit "...x" ∷ []))
count_battleships-ships_example =
    count_battleships-ships (lit "xx.x") (lit "...x" ∷ []) (omega arith)

count_battleships_two : count_battleships (lit "xx.x" ∷ lit "...x" ∷ []) ≡ done 2
unfolding sweep_rows count_columns count_battleships
count_battleships_two = refl

count_battleships_empty : count_battleships [] ≡ undefined
unfolding sweep_rows count_columns count_battleships
count_battleships_empty = refl

battleships_main :
    main ≡ done (lit "x    .    .    x    \n.    .    .    x    \n.    .    .    x    \n2\n")
unfolding decimal main
battleships_main = refl

hamming_main : Hamming.main (lit "hamming" ∷ lit "5" ∷ lit "-6" ∷ []) ≡ done (lit "-1\n31\n", pos 0)
unfolding Hamming.main
hamming_main = refl
