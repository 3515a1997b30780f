-- ===== src/LayerPipeline/Examples.antt =====
-- Two layers that land in the wrong order.
use quillcache.Prelude.{◌≤◌, ◌<◌, max, String, ◌≡◌, refl, [], ◌∷◌, arith, length}
use quillcache.LayerPipeline.Slices.{Tiles, slices, slices-Tiles}
use quillcache.LayerPipeline.{Pipeline, start, land, Completes, landed, Reached, primed, completed}
use quillcache.LayerPipeline.Release.{upto}
use quillcache.LayerPipeline.Runs.{notified-in_order, all_notified, left_to_do, Completes-lt}

abbrev first_tasks : Pipeline String
first_tasks = start 2 4

abbrev second_landed : Pipeline String
second_landed = land 2 1 (0 ∷ []) first_tasks

abbrev both_landed : Pipeline String
both_landed = land 2 0 [] second_landed

abbrev one_step : Completes 2 first_tasks second_landed
unfolding start
one_step = landed first_tasks (0 ∷ []) [] 1 refl

two_steps : Reached 2 4 both_landed
unfolding start land
two_steps =
    completed second_landed both_landed (completed first_tasks second_landed primed one_step)
      (landed second_landed [] [] 0 refl)

notified-in_order_example :
    (both_landed.notified ≡ upto both_landed.watermark)
    × (both_landed.watermark ≤ 2)
    × (length both_landed.in_flight ≤ max 4 1)
notified-in_order_example = notified-in_order 2 4 both_landed two_steps

all_notified_example : both_landed.notified ≡ upto 2
unfolding start land
all_notified_example = all_notified 2 4 both_landed two_steps refl refl

Completes-lt_example : left_to_do 2 second_landed < left_to_do 2 first_tasks
Completes-lt_example = Completes-lt 2 first_tasks second_landed one_step

slices-Tiles_example : Tiles (max 4 1) 0 10 (slices 10 4)
slices-Tiles_example = slices-Tiles 10 4 (omega arith)
