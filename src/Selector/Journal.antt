-- ===== src/Selector/Journal.antt =====
-- `JournalSelector` of client/src/selector.ts.
use data_plane_gateway.Prelude.{◌++◌, if◌then◌else◌, not}
use data_plane_gateway.Text.{Text, codes, ends_with}
use data_plane_gateway.Selector.{Selector, new_selector, push}

abbrev pub JournalSelector : Type 0
JournalSelector = Selector

unfoldable pub collection : Text → JournalSelector → JournalSelector
unfolding push
collection v this = push (codes "estuary.dev/collection") v this

unfoldable pub name : Text → JournalSelector → JournalSelector
unfolding push
name v this = push (codes "name") v this

-- The prefix, with a slash at its end.
unfoldable pub with_slash : Text → Text
with_slash v = if not (ends_with (codes "/") v) then v ++ codes "/" else v

unfoldable pub prefix : Text → JournalSelector
unfolding push with_slash new_selector
prefix v = push (codes "prefix") (with_slash v) new_selector
