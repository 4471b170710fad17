-- ===== src/SubId/Examples.antt =====
-- Tests of the ID maps.
use rootlesskit.Base.{ltb, leb, if◌then◌else◌, pos, ◌+◌, ◌≡◌, refl, ◌&&◌, [], ◌∷◌, arith}
use rootlesskit.SubId.{SubIdRange}
use rootlesskit.SubId.Maps.{mapped_by, map_rows, total, map_rows-tile}

abbrev first : SubIdRange
first = record { start = pos 100000; size = pos 65536 }

abbrev second : SubIdRange
second = record { start = pos 300000; size = pos 10 }

map_rows-tile_example :
    mapped_by 70 (map_rows (pos 1) (first ∷ second ∷ []))
    ≡ (if leb 1 70 && ltb 70 (1 + total (first ∷ second ∷ [])) then 1 else 0)
map_rows-tile_example = map_rows-tile 1 70 (first ∷ second ∷ []) (refl, (refl, tt)) (omega arith)
