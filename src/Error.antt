-- ===== src/Error.antt =====
-- app/src/main/cpp/iperf/iperf_api.h: the error codes of i_errno.
use sber_wifi.Prelude.Int.{ℤ, pos}

pub data IErr : Type 0 where
  ie_none ie_servclient ie_norole ie_serveronly ie_clientonly ie_duration ie_numstreams : IErr
  ie_blocksize ie_bufsize ie_interval ie_mss ie_nosendfile ie_omit ie_unimp ie_file ie_burst : IErr
  ie_endconditions ie_logfile ie_nosctp ie_bind ie_udpblocksize ie_badtos ie_setclientauth : IErr
  ie_setserverauth ie_badformat ie_reversebidir ie_badport ie_newtest ie_inittest ie_listen : IErr
  ie_connect ie_accept ie_sendcookie ie_recvcookie ie_ctrlwrite ie_ctrlread ie_ctrlclose : IErr
  ie_message ie_sendmessage ie_recvmessage ie_sendparams ie_recvparams ie_packageresults : IErr
  ie_sendresults ie_recvresults ie_select ie_clientterm ie_serverterm ie_accessdenied : IErr
  ie_setnodelay ie_setmss ie_setbuf ie_settos ie_setcos ie_setflow ie_reuseaddr : IErr
  ie_nonblocking ie_setwindowsize ie_protocol ie_affinity ie_daemon ie_setcongestion : IErr
  ie_pidfile ie_v6only ie_setsctpdisablefrag ie_setsctpnstream ie_setsctpbindx ie_setpacing : IErr
  ie_setbuf2 ie_authtest ie_createstream ie_initstream ie_streamlisten ie_streamconnect : IErr
  ie_streamaccept ie_streamwrite ie_streamread ie_streamclose ie_streamid ie_newtimer : IErr
  ie_updatetimer : IErr

-- The number of a code.
unfoldable pub error_number : IErr → ℤ
error_number ie_none = pos 0
error_number ie_servclient = pos 1
error_number ie_norole = pos 2
error_number ie_serveronly = pos 3
error_number ie_clientonly = pos 4
error_number ie_duration = pos 5
error_number ie_numstreams = pos 6
error_number ie_blocksize = pos 7
error_number ie_bufsize = pos 8
error_number ie_interval = pos 9
error_number ie_mss = pos 10
error_number ie_nosendfile = pos 11
error_number ie_omit = pos 12
error_number ie_unimp = pos 13
error_number ie_file = pos 14
error_number ie_burst = pos 15
error_number ie_endconditions = pos 16
error_number ie_logfile = pos 17
error_number ie_nosctp = pos 18
error_number ie_bind = pos 19
error_number ie_udpblocksize = pos 20
error_number ie_badtos = pos 21
error_number ie_setclientauth = pos 22
error_number ie_setserverauth = pos 23
error_number ie_badformat = pos 24
error_number ie_reversebidir = pos 25
error_number ie_badport = pos 26
error_number ie_newtest = pos 100
error_number ie_inittest = pos 101
error_number ie_listen = pos 102
error_number ie_connect = pos 103
error_number ie_accept = pos 104
error_number ie_sendcookie = pos 105
error_number ie_recvcookie = pos 106
error_number ie_ctrlwrite = pos 107
error_number ie_ctrlread = pos 108
error_number ie_ctrlclose = pos 109
error_number ie_message = pos 110
error_number ie_sendmessage = pos 111
error_number ie_recvmessage = pos 112
error_number ie_sendparams = pos 113
error_number ie_recvparams = pos 114
error_number ie_packageresults = pos 115
error_number ie_sendresults = pos 116
error_number ie_recvresults = pos 117
error_number ie_select = pos 118
error_number ie_clientterm = pos 119
error_number ie_serverterm = pos 120
error_number ie_accessdenied = pos 121
error_number ie_setnodelay = pos 122
error_number ie_setmss = pos 123
error_number ie_setbuf = pos 124
error_number ie_settos = pos 125
error_number ie_setcos = pos 126
error_number ie_setflow = pos 127
error_number ie_reuseaddr = pos 128
error_number ie_nonblocking = pos 129
error_number ie_setwindowsize = pos 130
error_number ie_protocol = pos 131
error_number ie_affinity = pos 132
error_number ie_daemon = pos 133
error_number ie_setcongestion = pos 134
error_number ie_pidfile = pos 135
error_number ie_v6only = pos 136
error_number ie_setsctpdisablefrag = pos 137
error_number ie_setsctpnstream = pos 138
error_number ie_setsctpbindx = pos 139
error_number ie_setpacing = pos 140
error_number ie_setbuf2 = pos 141
error_number ie_authtest = pos 142
error_number ie_createstream = pos 200
error_number ie_initstream = pos 201
error_number ie_streamlisten = pos 202
error_number ie_streamconnect = pos 203
error_number ie_streamaccept = pos 204
error_number ie_streamwrite = pos 205
error_number ie_streamread = pos 206
error_number ie_streamclose = pos 207
error_number ie_streamid = pos 208
error_number ie_newtimer = pos 300
error_number ie_updatetimer = pos 301
