-- ===== src/Selector/Shard.antt =====
-- `ShardSelector` of client/src/selector.ts.
use data_plane_gateway.Text.{Text, codes}
use data_plane_gateway.Selector.{Selector, push}

abbrev pub ShardSelector : Type 0
ShardSelector = Selector

unfoldable pub task : Text → ShardSelector → ShardSelector
unfolding push
task v this = push (codes "estuary.dev/task-name") v this

unfoldable pub id : Text → ShardSelector → ShardSelector
unfolding push
id v this = push (codes "id") v this
