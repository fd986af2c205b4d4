-- ===== src/Util/TrimUrl/Laws.antt =====
-- What `trimUrl` takes off a URL.
use data_plane_gateway.Prelude.{
  ◌≡◌, [], ◌++◌, init, init-append_last, append-nil, Bool-cases, inl, inr, if◌then◌else◌,
}
use data_plane_gateway.Text.{Text, codes, ends_with}
use data_plane_gateway.Text.Affixes.{ends_with_sound}
use data_plane_gateway.Util.TrimUrl.{Url, trim_url}

-- The result, with a slash behind it if the URL ends in one, is the URL: one slash at most is
-- taken off, and nothing else.
pub trim_url_lem :
    (orig : Url)
    → trim_url orig ++ (if ends_with (codes "/") orig.href then codes "/" else []) ≡ orig.href
unfolding trim_url
trim_url_lem orig = elim (Bool-cases (ends_with (codes "/") orig.href)) [
  | inl h ↦ let (r, e) = ends_with_sound (codes "/") orig.href h in rw h (slash_at_end r e)
  | inr h ↦ rw (h, append-nil)
]
  where
    slash_at_end : (r : Text) → orig.href ≡ r ++ codes "/" → init orig.href ++ codes "/" ≡ orig.href
    slash_at_end r e = rw (e, init-append_last r b'/')
