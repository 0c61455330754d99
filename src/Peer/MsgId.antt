-- ===== src/Peer/MsgId.antt =====
-- peer/message.go: the message ids of BEP 3 and BEP 6; peer/extension.go: that of BEP 10.
use stor.Prelude.{ℕ}

abbrev pub choke : ℕ
choke = 0

abbrev pub unchoke : ℕ
unchoke = 1

abbrev pub interested : ℕ
interested = 2

abbrev pub not_interested : ℕ
not_interested = 3

abbrev pub have : ℕ
have = 4

abbrev pub bitfield : ℕ
bitfield = 5

abbrev pub request : ℕ
request = 6

abbrev pub piece : ℕ
piece = 7

abbrev pub cancel : ℕ
cancel = 8

abbrev pub suggest : ℕ
suggest = 13

abbrev pub have_all : ℕ
have_all = 14

abbrev pub have_none : ℕ
have_none = 15

abbrev pub reject : ℕ
reject = 16

abbrev pub allowed_fast : ℕ
allowed_fast = 17

abbrev pub extended : ℕ
extended = 20
