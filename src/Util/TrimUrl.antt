-- ===== src/Util/TrimUrl.antt =====
-- `trimUrl` of client/src/util.ts. A `URL` is modelled by its serialization, which `toString`
-- returns.
pub mod Laws
use data_plane_gateway.Prelude.{List, init, if◌then◌else◌}
use data_plane_gateway.Text.{Text, codes, ends_with}

pub record Url : Type 0 where
  pub href : Text

-- orig.toString()
abbrev pub to_text : Url → Text
to_text orig = orig.href

unfoldable pub trim_url : Url → Text
unfolding ends_with
trim_url orig = let url = to_text orig in if ends_with (codes "/") url then init url else url
