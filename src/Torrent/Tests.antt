-- ===== src/Torrent/Tests.antt =====
-- The theorems of Torrent at a small file.
use stor.Prelude.{[], ◌∷◌, some, none, false, ◌≡◌, refl, replicate, not, length, ◌==◌, ◌&&◌, ◌||◌}
use stor.Prelude.Int.{pos, leb_ℤ}
use stor.Bencode.Value.{put, str_eq}
use stor.Bencode.Decimal.{parse_int, format_int}
use stor.Bencode.Order.{str_lt}
use stor.Bencode.Decode.{decode, decode_value, decode_string, decode_int}
use stor.Bencode.Encode.{encode, encode_value, sort_keys, encode_int, join_fields, encode_string}
use stor.Prelude.Words.{Bytes}
use stor.Prelude.Text.{codes}
use stor.Torrent.File.{TorrentFile, tracker_urls, seen}
use stor.Bencode.Access.{get}
use stor.Torrent.Parse.{parse, parse_info, cut_hashes}
use stor.Torrent.Parsed.{ValidFile, parse-ValidFile}
use stor.Torrent.Trackers.{NoDup, tracker_urls_lem, named}

abbrev contents : Bytes
contents =
    codes
      "d8:announce1:t4:infod6:lengthi7e4:name1:a12:piece lengthi8e6:pieces20:abcdefghijklmnopqrstee"

-- Any function stands for the hash.
abbrev first_sum : Bytes → Bytes
first_sum b = 1 ∷ b

abbrev file : TorrentFile
file = record {
  announce = codes "t";
  announce_list = [];
  info = record {
    name = codes "a";
    piece_length = pos 8;
    piece_hashes = codes "abcdefghijklmnopqrst" ∷ [];
    len = pos 7;
    files = [];
    is_private = false;
    file_tree = none;
  };
  info_hash = 1 ∷ codes "d6:lengthi7e4:name1:a12:piece lengthi8e6:pieces20:abcdefghijklmnopqrste";
  info_hash_v2 = replicate 32 0;
  meta_version = 0;
  web_seed_urls = [];
}

parse_run : parse first_sum first_sum contents ≡ some file
unfolding parse parse_info get cut_hashes decode decode_value decode_string decode_int parse_int
    str_lt put encode encode_value encode_int encode_string format_int join_fields sort_keys leb_ℤ
parse_run = refl

parse-ValidFile_example : ValidFile first_sum contents file
parse-ValidFile_example = parse-ValidFile first_sum first_sum contents file parse_run

tracker_urls_example :
    NoDup (tracker_urls file)
    × ((u : Bytes)
        → seen u (tracker_urls file) ≡ (
            (not (length file.announce == 0) && str_eq file.announce u)
            || named u file.announce_list))
tracker_urls_example = tracker_urls_lem file
