-- ===== src/DataUrl/Examples.antt =====
-- URLs that are pictures, and URLs that are not.
use simple_serving.Prelude.{◌≡◌, refl, some, none, codes}
use simple_serving.DataUrl.{picture_match, kind_of}

matched :
    picture_match (codes "data:image/webp;base64,UklGRg==") ≡ some (codes "webp", codes "UklGRg==")
unfolding picture_match
matched = refl

fetched : picture_match (codes "http://example.org/a.png") ≡ none
unfolding picture_match
fetched = refl

padded_inside : picture_match (codes "data:image/png;base64,AA=A") ≡ none
unfolding picture_match
padded_inside = refl

webp_kind : kind_of (codes "RIFF1234WEBPVP8 ") ≡ codes "webp"
unfolding kind_of
webp_kind = refl
