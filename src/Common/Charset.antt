-- ===== src/Common/Charset.antt =====
-- common/strings.go, `CharsetConvert`. The encoders and decoders of golang.org/x/text, each by the name
-- of its character set, are parameters; no result is an error.
use transferdb.Prelude.{◌&&◌, Option, none, some, if◌then◌else◌}
use transferdb.Text.{Text, codes, equal_fold}

module _ (encode decode : Text → Text → Option Text) where
  unfoldable pub charset_convert : Text → Text → Text → Option Text
  unfolding equal_fold
  charset_convert raw from to =
      let to_utf8 = equal_fold to (codes "UTF8MB4") in
      let of_utf8 = equal_fold from (codes "UTF8MB4") in
      if of_utf8 && equal_fold to (codes "GBK")
      then encode (codes "GBK") raw
      else if of_utf8 && equal_fold to (codes "GB18030")
      then encode (codes "GB18030") raw
      else if of_utf8 && equal_fold to (codes "BIG5")
      then encode (codes "BIG5") raw
      else if of_utf8 && to_utf8
      then some raw
      else if equal_fold from (codes "GBK") && to_utf8
      then decode (codes "GBK") raw
      else if equal_fold from (codes "GB18030") && to_utf8
      then decode (codes "GB18030") raw
      else if equal_fold from (codes "BIG5") && to_utf8
      then decode (codes "BIG5") raw
      else none
