-- ===== src/Reactions/Tables.antt =====
-- The code points that an emoji is built from: the tables of src/nunchi/reactions.py.
-- A range is its first and its last code point; a flag is its two letters' code points.
use nunchi.Prelude.{ℕ, List, [], ◌∷◌}

-- A table is written flat, two numbers for an entry.
abbrev pairs : List ℕ → List (ℕ × ℕ)
pairs [] = []
pairs (first ∷ []) = []
pairs (first ∷ last ∷ rest) = (first, last) ∷ pairs rest

abbrev pub emoji : List (ℕ × ℕ)
emoji = pairs (
    169 ∷ 169 ∷ 174 ∷ 174 ∷ 8252 ∷ 8252 ∷ 8265 ∷ 8265 ∷ 8482 ∷ 8482 ∷ 8505 ∷ 8505 ∷ 8596 ∷ 8601
    ∷ 8617 ∷ 8618 ∷ 8986 ∷ 8987 ∷ 9000 ∷ 9000 ∷ 9167 ∷ 9167 ∷ 9193 ∷ 9203 ∷ 9208 ∷ 9210 ∷ 9410
    ∷ 9410 ∷ 9642 ∷ 9643 ∷ 9654 ∷ 9654 ∷ 9664 ∷ 9664 ∷ 9723 ∷ 9726 ∷ 9728 ∷ 9732 ∷ 9742 ∷ 9742
    ∷ 9745 ∷ 9745 ∷ 9748 ∷ 9749 ∷ 9752 ∷ 9752 ∷ 9757 ∷ 9757 ∷ 9760 ∷ 9760 ∷ 9762 ∷ 9763 ∷ 9766
    ∷ 9766 ∷ 9770 ∷ 9770 ∷ 9774 ∷ 9775 ∷ 9784 ∷ 9786 ∷ 9792 ∷ 9792 ∷ 9794 ∷ 9794 ∷ 9800 ∷ 9811
    ∷ 9823 ∷ 9824 ∷ 9827 ∷ 9827 ∷ 9829 ∷ 9830 ∷ 9832 ∷ 9832 ∷ 9851 ∷ 9851 ∷ 9854 ∷ 9855 ∷ 9874
    ∷ 9879 ∷ 9881 ∷ 9881 ∷ 9883 ∷ 9884 ∷ 9888 ∷ 9889 ∷ 9895 ∷ 9895 ∷ 9898 ∷ 9899 ∷ 9904 ∷ 9905
    ∷ 9917 ∷ 9918 ∷ 9924 ∷ 9925 ∷ 9928 ∷ 9928 ∷ 9934 ∷ 9935 ∷ 9937 ∷ 9937 ∷ 9939 ∷ 9940 ∷ 9961
    ∷ 9962 ∷ 9968 ∷ 9973 ∷ 9975 ∷ 9978 ∷ 9981 ∷ 9981 ∷ 9986 ∷ 9986 ∷ 9989 ∷ 9989 ∷ 9992 ∷ 9997
    ∷ 9999 ∷ 9999 ∷ 10002 ∷ 10002 ∷ 10004 ∷ 10004 ∷ 10006 ∷ 10006 ∷ 10013 ∷ 10013 ∷ 10017 ∷ 10017
    ∷ 10024 ∷ 10024 ∷ 10035 ∷ 10036 ∷ 10052 ∷ 10052 ∷ 10055 ∷ 10055 ∷ 10060 ∷ 10060 ∷ 10062 ∷ 10062
    ∷ 10067 ∷ 10069 ∷ 10071 ∷ 10071 ∷ 10083 ∷ 10084 ∷ 10133 ∷ 10135 ∷ 10145 ∷ 10145 ∷ 10160 ∷ 10160
    ∷ 10175 ∷ 10175 ∷ 10548 ∷ 10549 ∷ 11013 ∷ 11015 ∷ 11035 ∷ 11036 ∷ 11088 ∷ 11088 ∷ 11093 ∷ 11093
    ∷ 12336 ∷ 12336 ∷ 12349 ∷ 12349 ∷ 12951 ∷ 12951 ∷ 12953 ∷ 12953 ∷ 126980 ∷ 126980 ∷ 127183
    ∷ 127183 ∷ 127344 ∷ 127345 ∷ 127358 ∷ 127359 ∷ 127374 ∷ 127374 ∷ 127377 ∷ 127386 ∷ 127462
    ∷ 127487 ∷ 127489 ∷ 127490 ∷ 127514 ∷ 127514 ∷ 127535 ∷ 127535 ∷ 127538 ∷ 127546 ∷ 127568
    ∷ 127569 ∷ 127744 ∷ 127777 ∷ 127780 ∷ 127891 ∷ 127894 ∷ 127895 ∷ 127897 ∷ 127899 ∷ 127902
    ∷ 127984 ∷ 127987 ∷ 127989 ∷ 127991 ∷ 128253 ∷ 128255 ∷ 128317 ∷ 128329 ∷ 128334 ∷ 128336
    ∷ 128359 ∷ 128367 ∷ 128368 ∷ 128371 ∷ 128378 ∷ 128391 ∷ 128391 ∷ 128394 ∷ 128397 ∷ 128400
    ∷ 128400 ∷ 128405 ∷ 128406 ∷ 128420 ∷ 128421 ∷ 128424 ∷ 128424 ∷ 128433 ∷ 128434 ∷ 128444
    ∷ 128444 ∷ 128450 ∷ 128452 ∷ 128465 ∷ 128467 ∷ 128476 ∷ 128478 ∷ 128481 ∷ 128481 ∷ 128483
    ∷ 128483 ∷ 128488 ∷ 128488 ∷ 128495 ∷ 128495 ∷ 128499 ∷ 128499 ∷ 128506 ∷ 128591 ∷ 128640
    ∷ 128709 ∷ 128715 ∷ 128722 ∷ 128725 ∷ 128727 ∷ 128732 ∷ 128741 ∷ 128745 ∷ 128745 ∷ 128747
    ∷ 128748 ∷ 128752 ∷ 128752 ∷ 128755 ∷ 128764 ∷ 128992 ∷ 129003 ∷ 129008 ∷ 129008 ∷ 129292
    ∷ 129338 ∷ 129340 ∷ 129349 ∷ 129351 ∷ 129535 ∷ 129648 ∷ 129660 ∷ 129664 ∷ 129673 ∷ 129679
    ∷ 129734 ∷ 129742 ∷ 129756 ∷ 129759 ∷ 129769 ∷ 129776 ∷ 129784 ∷ [])

abbrev pub unassigned : List (ℕ × ℕ)
unassigned = pairs (
    128728 ∷ 128731 ∷ 128749 ∷ 128751 ∷ 128765 ∷ 128767 ∷ 129004 ∷ 129007 ∷ 129009 ∷ 129023 ∷ 129661
    ∷ 129663 ∷ 129674 ∷ 129678 ∷ 129735 ∷ 129741 ∷ 129757 ∷ 129758 ∷ 129770 ∷ 129775 ∷ 129785
    ∷ 129791 ∷ [])

abbrev pub modifier_bases : List (ℕ × ℕ)
modifier_bases = pairs (
    9757 ∷ 9757 ∷ 9977 ∷ 9977 ∷ 9994 ∷ 9997 ∷ 127877 ∷ 127877 ∷ 127938 ∷ 127940 ∷ 127943 ∷ 127943
    ∷ 127946 ∷ 127948 ∷ 128066 ∷ 128067 ∷ 128070 ∷ 128080 ∷ 128102 ∷ 128120 ∷ 128124 ∷ 128124
    ∷ 128129 ∷ 128131 ∷ 128133 ∷ 128135 ∷ 128143 ∷ 128143 ∷ 128145 ∷ 128145 ∷ 128170 ∷ 128170
    ∷ 128372 ∷ 128373 ∷ 128378 ∷ 128378 ∷ 128400 ∷ 128400 ∷ 128405 ∷ 128406 ∷ 128581 ∷ 128583
    ∷ 128587 ∷ 128591 ∷ 128675 ∷ 128675 ∷ 128692 ∷ 128694 ∷ 128704 ∷ 128704 ∷ 128716 ∷ 128716
    ∷ 129292 ∷ 129292 ∷ 129295 ∷ 129295 ∷ 129304 ∷ 129311 ∷ 129318 ∷ 129318 ∷ 129328 ∷ 129337
    ∷ 129340 ∷ 129342 ∷ 129399 ∷ 129399 ∷ 129461 ∷ 129462 ∷ 129464 ∷ 129465 ∷ 129467 ∷ 129467
    ∷ 129485 ∷ 129487 ∷ 129489 ∷ 129501 ∷ 129731 ∷ 129733 ∷ 129776 ∷ 129784 ∷ [])

abbrev pub joined_emoji : List ℕ
joined_emoji =
    8596 ∷ 8597 ∷ 9760 ∷ 9792 ∷ 9794 ∷ 9877 ∷ 9878 ∷ 9895 ∷ 9992 ∷ 10052 ∷ 10084 ∷ 10145 ∷ 11035
    ∷ 127752 ∷ 127787 ∷ 127806 ∷ 127859 ∷ 127868 ∷ 127876 ∷ 127891 ∷ 127908 ∷ 127912 ∷ 127979
    ∷ 127981 ∷ 128102 ∷ 128103 ∷ 128104 ∷ 128105 ∷ 128139 ∷ 128165 ∷ 128168 ∷ 128171 ∷ 128187
    ∷ 128188 ∷ 128293 ∷ 128295 ∷ 128300 ∷ 128488 ∷ 128640 ∷ 128658 ∷ 129001 ∷ 129003 ∷ 129309
    ∷ 129455 ∷ 129456 ∷ 129457 ∷ 129458 ∷ 129459 ∷ 129466 ∷ 129468 ∷ 129469 ∷ 129489 ∷ 129490
    ∷ 129657 ∷ 129778 ∷ []

abbrev pub flags : List (ℕ × ℕ)
flags = pairs (
    65 ∷ 67 ∷ 65 ∷ 68 ∷ 65 ∷ 69 ∷ 65 ∷ 70 ∷ 65 ∷ 71 ∷ 65 ∷ 73 ∷ 65 ∷ 76 ∷ 65 ∷ 77 ∷ 65 ∷ 79 ∷ 65
    ∷ 81 ∷ 65 ∷ 82 ∷ 65 ∷ 83 ∷ 65 ∷ 84 ∷ 65 ∷ 85 ∷ 65 ∷ 87 ∷ 65 ∷ 88 ∷ 65 ∷ 90 ∷ 66 ∷ 65 ∷ 66 ∷ 66
    ∷ 66 ∷ 68 ∷ 66 ∷ 69 ∷ 66 ∷ 70 ∷ 66 ∷ 71 ∷ 66 ∷ 72 ∷ 66 ∷ 73 ∷ 66 ∷ 74 ∷ 66 ∷ 76 ∷ 66 ∷ 77 ∷ 66
    ∷ 78 ∷ 66 ∷ 79 ∷ 66 ∷ 81 ∷ 66 ∷ 82 ∷ 66 ∷ 83 ∷ 66 ∷ 84 ∷ 66 ∷ 86 ∷ 66 ∷ 87 ∷ 66 ∷ 89 ∷ 66 ∷ 90
    ∷ 67 ∷ 65 ∷ 67 ∷ 67 ∷ 67 ∷ 68 ∷ 67 ∷ 70 ∷ 67 ∷ 71 ∷ 67 ∷ 72 ∷ 67 ∷ 73 ∷ 67 ∷ 75 ∷ 67 ∷ 76 ∷ 67
    ∷ 77 ∷ 67 ∷ 78 ∷ 67 ∷ 79 ∷ 67 ∷ 80 ∷ 67 ∷ 81 ∷ 67 ∷ 82 ∷ 67 ∷ 85 ∷ 67 ∷ 86 ∷ 67 ∷ 87 ∷ 67 ∷ 88
    ∷ 67 ∷ 89 ∷ 67 ∷ 90 ∷ 68 ∷ 69 ∷ 68 ∷ 71 ∷ 68 ∷ 74 ∷ 68 ∷ 75 ∷ 68 ∷ 77 ∷ 68 ∷ 79 ∷ 68 ∷ 90 ∷ 69
    ∷ 65 ∷ 69 ∷ 67 ∷ 69 ∷ 69 ∷ 69 ∷ 71 ∷ 69 ∷ 72 ∷ 69 ∷ 82 ∷ 69 ∷ 83 ∷ 69 ∷ 84 ∷ 69 ∷ 85 ∷ 70 ∷ 73
    ∷ 70 ∷ 74 ∷ 70 ∷ 75 ∷ 70 ∷ 77 ∷ 70 ∷ 79 ∷ 70 ∷ 82 ∷ 71 ∷ 65 ∷ 71 ∷ 66 ∷ 71 ∷ 68 ∷ 71 ∷ 69 ∷ 71
    ∷ 70 ∷ 71 ∷ 71 ∷ 71 ∷ 72 ∷ 71 ∷ 73 ∷ 71 ∷ 76 ∷ 71 ∷ 77 ∷ 71 ∷ 78 ∷ 71 ∷ 80 ∷ 71 ∷ 81 ∷ 71 ∷ 82
    ∷ 71 ∷ 83 ∷ 71 ∷ 84 ∷ 71 ∷ 85 ∷ 71 ∷ 87 ∷ 71 ∷ 89 ∷ 72 ∷ 75 ∷ 72 ∷ 77 ∷ 72 ∷ 78 ∷ 72 ∷ 82 ∷ 72
    ∷ 84 ∷ 72 ∷ 85 ∷ 73 ∷ 67 ∷ 73 ∷ 68 ∷ 73 ∷ 69 ∷ 73 ∷ 76 ∷ 73 ∷ 77 ∷ 73 ∷ 78 ∷ 73 ∷ 79 ∷ 73 ∷ 81
    ∷ 73 ∷ 82 ∷ 73 ∷ 83 ∷ 73 ∷ 84 ∷ 74 ∷ 69 ∷ 74 ∷ 77 ∷ 74 ∷ 79 ∷ 74 ∷ 80 ∷ 75 ∷ 69 ∷ 75 ∷ 71 ∷ 75
    ∷ 72 ∷ 75 ∷ 73 ∷ 75 ∷ 77 ∷ 75 ∷ 78 ∷ 75 ∷ 80 ∷ 75 ∷ 82 ∷ 75 ∷ 87 ∷ 75 ∷ 89 ∷ 75 ∷ 90 ∷ 76 ∷ 65
    ∷ 76 ∷ 66 ∷ 76 ∷ 67 ∷ 76 ∷ 73 ∷ 76 ∷ 75 ∷ 76 ∷ 82 ∷ 76 ∷ 83 ∷ 76 ∷ 84 ∷ 76 ∷ 85 ∷ 76 ∷ 86 ∷ 76
    ∷ 89 ∷ 77 ∷ 65 ∷ 77 ∷ 67 ∷ 77 ∷ 68 ∷ 77 ∷ 69 ∷ 77 ∷ 70 ∷ 77 ∷ 71 ∷ 77 ∷ 72 ∷ 77 ∷ 75 ∷ 77 ∷ 76
    ∷ 77 ∷ 77 ∷ 77 ∷ 78 ∷ 77 ∷ 79 ∷ 77 ∷ 80 ∷ 77 ∷ 81 ∷ 77 ∷ 82 ∷ 77 ∷ 83 ∷ 77 ∷ 84 ∷ 77 ∷ 85 ∷ 77
    ∷ 86 ∷ 77 ∷ 87 ∷ 77 ∷ 88 ∷ 77 ∷ 89 ∷ 77 ∷ 90 ∷ 78 ∷ 65 ∷ 78 ∷ 67 ∷ 78 ∷ 69 ∷ 78 ∷ 70 ∷ 78 ∷ 71
    ∷ 78 ∷ 73 ∷ 78 ∷ 76 ∷ 78 ∷ 79 ∷ 78 ∷ 80 ∷ 78 ∷ 82 ∷ 78 ∷ 85 ∷ 78 ∷ 90 ∷ 79 ∷ 77 ∷ 80 ∷ 65 ∷ 80
    ∷ 69 ∷ 80 ∷ 70 ∷ 80 ∷ 71 ∷ 80 ∷ 72 ∷ 80 ∷ 75 ∷ 80 ∷ 76 ∷ 80 ∷ 77 ∷ 80 ∷ 78 ∷ 80 ∷ 82 ∷ 80 ∷ 83
    ∷ 80 ∷ 84 ∷ 80 ∷ 87 ∷ 80 ∷ 89 ∷ 81 ∷ 65 ∷ 82 ∷ 69 ∷ 82 ∷ 79 ∷ 82 ∷ 83 ∷ 82 ∷ 85 ∷ 82 ∷ 87 ∷ 83
    ∷ 65 ∷ 83 ∷ 66 ∷ 83 ∷ 67 ∷ 83 ∷ 68 ∷ 83 ∷ 69 ∷ 83 ∷ 71 ∷ 83 ∷ 72 ∷ 83 ∷ 73 ∷ 83 ∷ 74 ∷ 83 ∷ 75
    ∷ 83 ∷ 76 ∷ 83 ∷ 77 ∷ 83 ∷ 78 ∷ 83 ∷ 79 ∷ 83 ∷ 82 ∷ 83 ∷ 83 ∷ 83 ∷ 84 ∷ 83 ∷ 86 ∷ 83 ∷ 88 ∷ 83
    ∷ 89 ∷ 83 ∷ 90 ∷ 84 ∷ 65 ∷ 84 ∷ 67 ∷ 84 ∷ 68 ∷ 84 ∷ 70 ∷ 84 ∷ 71 ∷ 84 ∷ 72 ∷ 84 ∷ 74 ∷ 84 ∷ 75
    ∷ 84 ∷ 76 ∷ 84 ∷ 77 ∷ 84 ∷ 78 ∷ 84 ∷ 79 ∷ 84 ∷ 82 ∷ 84 ∷ 84 ∷ 84 ∷ 86 ∷ 84 ∷ 87 ∷ 84 ∷ 90 ∷ 85
    ∷ 65 ∷ 85 ∷ 71 ∷ 85 ∷ 77 ∷ 85 ∷ 78 ∷ 85 ∷ 83 ∷ 85 ∷ 89 ∷ 85 ∷ 90 ∷ 86 ∷ 65 ∷ 86 ∷ 67 ∷ 86 ∷ 69
    ∷ 86 ∷ 71 ∷ 86 ∷ 73 ∷ 86 ∷ 78 ∷ 86 ∷ 85 ∷ 87 ∷ 70 ∷ 87 ∷ 83 ∷ 88 ∷ 75 ∷ 89 ∷ 69 ∷ 89 ∷ 84 ∷ 90
    ∷ 65 ∷ 90 ∷ 77 ∷ 90 ∷ 87 ∷ [])
